-- ===== src/Dispatch/Enabled.antt =====
-- Chat dispatch: every command that is found is one that the platform runs.
use tripbot.Base.{
  ℕ, suc, ◌+◌, ◌≡◌, refl, inl, inr, true, not, ◌||◌, Option, none, some, List, [], ◌∷◌, All, Text,
  codes, same_text, same_text_eq, OneOf, has_prefix, length, leb, arith, Bool-cases, subst,
}
use tripbot.Dispatch.Registry.{
  Command, Platform, command_enabled, Index, Lookups, has_space, lookup, assign, register_trigger,
  register_all, index_from, command_at,
}
use tripbot.Dispatch.Lookup.{longest}

-- The place holds a command that the platform runs.
abbrev pub Runs : Platform → List Command → ℕ → Type 0
Runs p cmds i = (cmd : Command) × (command_at cmds i ≡ some cmd) × (command_enabled p cmd ≡ true)

-- Every name of an index with its command.
abbrev pub AllRun : (Text → ℕ → Type 0) → Index → Type 0
AllRun P m = All (λ e. P e.0 e.1) m

assign-AllRun :
    (P : Text → ℕ → Type 0) (k : Text) (v : ℕ) (m : Index)
    → P k v
    → AllRun P m
    → AllRun P (assign k v m)
unfolding assign
assign-AllRun P k v [] pv h = (pv, tt)
assign-AllRun P k v ((j, w) ∷ m) pv h = elim (Bool-cases (same_text j k)) [
  | inl same ↦ rw (assign, same) (pv, h.1)
  | inr other ↦ rw (assign, other) (h.0, assign-AllRun P k v m pv h.1)
]

abbrev pub BothRun : (Text → ℕ → Type 0) → Lookups → Type 0
BothRun P ls = AllRun P ls.single × AllRun P ls.multi

register_trigger-BothRun :
    (P : Text → ℕ → Type 0) (t : Text) (i : ℕ) (ls : Lookups)
    → P t i
    → BothRun P ls
    → BothRun P (register_trigger t i ls)
unfolding register_trigger
register_trigger-BothRun P t i ls pi h = elim (Bool-cases (has_space t)) [
  | inl multi ↦ rw (register_trigger, multi) (h.0, assign-AllRun P t i ls.multi pi h.1)
  | inr single ↦ rw (register_trigger, single) (assign-AllRun P t i ls.single pi h.0, h.1)
]

register_all-BothRun :
    (P : Text → ℕ → Type 0) (ts : List Text) (i : ℕ) (ls : Lookups)
    → ((t : Text) → OneOf t ts → P t i)
    → BothRun P ls
    → BothRun P (register_all ts i ls)
unfolding register_all
register_all-BothRun P [] i ls pi h = h
register_all-BothRun P (t ∷ ts) i ls pi h =
    register_all-BothRun P ts i (register_trigger t i ls) (λ u m. pi u (inr m))
      (register_trigger-BothRun P t i ls (pi t (inl refl)) h)

pub index_from-BothRun :
    (P : Text → ℕ → Type 0) (p : Platform) (i : ℕ) (cmds : List Command) (ls : Lookups)
    → ((j : ℕ) (cmd : Command) (t : Text)
        → command_at cmds j ≡ some cmd
        → command_enabled p cmd ≡ true
        → OneOf t (cmd.trigger ∷ cmd.aliases)
        → P t (i + j))
    → BothRun P ls
    → BothRun P (index_from p i cmds ls)
unfolding index_from command_at
index_from-BothRun P p i [] ls each h = h
index_from-BothRun P p i (cmd ∷ cmds) ls each h =
    let later = λ (ls' : Lookups) (k : BothRun P ls').
      index_from-BothRun P p (suc i) cmds ls'
        (λ j c t e r m.
          subst (P t) {x = i + suc j} {y = suc i + j} (omega arith) (each (suc j) c t e r m))
        k in
    elim (Bool-cases (command_enabled p cmd)) [
      | inl runs ↦
          rw (index_from, runs)
            (later (register_all (cmd.trigger ∷ cmd.aliases) i ls) (
              register_all-BothRun P (cmd.trigger ∷ cmd.aliases) i ls
                (λ t m. subst (P t) {x = i + 0} {y = i} (omega arith) (each 0 cmd t refl runs m))
                h))
      | inr not' ↦ rw (index_from, not') (later ls h)
    ]

pub lookup-Runs :
    (P : Text → ℕ → Type 0) (k : Text) (m : Index) (i : ℕ)
    → AllRun P m
    → lookup k m ≡ some i
    → P k i
unfolding lookup
lookup-Runs P k [] i h e = ground arith
lookup-Runs P k ((j, v) ∷ m) i h e = elim (Bool-cases (same_text j k)) [
  | inl same ↦
      let is : v ≡ i = ground (arith, e, same) in
      subst (λ t. P t i) (same_text_eq j k same) (subst (P j) is h.0)
  | inr other ↦ lookup-Runs P k m i h.1 (ground arith)
]

pub longest-Runs :
    (P : ℕ → Type 0) (command : Text) (m : Index) (best : Option ℕ) (len : ℕ) (i n : ℕ)
    → AllRun (λ k. P) m
    → ((j : ℕ) → best ≡ some j → P j)
    → longest command m best len ≡ some (i, n)
    → P i
unfolding longest
longest-Runs P command [] none len i n h b e = ground arith
longest-Runs P command [] (some j) len i n h b e = b i (ground arith)
longest-Runs P command ((trigger, v) ∷ m) best len i n h b e =
    let skips =
      not (has_prefix (codes "!") trigger)
      || leb (length trigger) len
      || leb (length command) (length trigger) in
    elim (Bool-cases skips) [
      | inl skip ↦ longest-Runs P command m best len i n h.1 b (ground (arith, e, skip))
      | inr tries ↦ elim (Bool-cases (has_prefix trigger command)) [
        | inl fits ↦
            longest-Runs P command m (some v) (length trigger) i n h.1
              (λ j is. subst P {x = v} {y = j} (ground arith) h.0) (ground (arith, e, tries, fits))
        | inr not' ↦ longest-Runs P command m best len i n h.1 b (ground (arith, e, tries, not'))
      ]
    ]
