-- ===== src/Dispatch/Named.antt =====
-- Chat dispatch: a command's own name always finds a command of that name.
use tripbot.Base.{
  ℕ, zero, suc, ◌+◌, ◌≡◌, refl, inl, inr, true, false, none, some, List, [], ◌∷◌, ◌++◌, ◌⊎◌, Text,
  codes, same_text, same_text_iff, same_text_self, OneOf, if◌then◌else◌, arith, Bool-cases, subst,
  sym, ap, ◌∙◌,
}
use tripbot.Dispatch.Registry.{
  Command, Platform, command_enabled, Index, Lookups, has_space, lookup, assign, register_trigger,
  register_all, index_from, index_commands, command_at,
}
use tripbot.Dispatch.Lookup.{Words, find_multi, drop_tag, spaced, parse, find_command, words_of}
use tripbot.Dispatch.Enabled.{index_from-BothRun, lookup-Runs}

-- The index has the name.
abbrev Knows : Text → Index → Type 0
Knows k m = (v : ℕ) × (lookup k m ≡ some v)

lookup-assign :
    (k j : Text) (v : ℕ) (m : Index)
    → lookup k (assign j v m) ≡ (if same_text j k then some v else lookup k m)
unfolding lookup assign
lookup-assign k j v [] = refl
lookup-assign k j v ((i, w) ∷ m) = ground (
  arith,
  same_text_iff k j,
  same_text_iff i j,
  same_text_iff i k,
  same_text_iff j k,
  lookup-assign k j v m,
)

assign-Knows : (k : Text) (v : ℕ) (m : Index) → Knows k (assign k v m)
assign-Knows k v m = (v, lookup-assign k k v m ∙ rw (same_text_self k) refl)

assign_other-Knows : (k j : Text) (v : ℕ) (m : Index) → Knows k m → Knows k (assign j v m)
assign_other-Knows k j v m (u, e) = elim (Bool-cases (same_text j k)) [
  | inl same ↦ (v, lookup-assign k j v m ∙ rw same refl)
  | inr other ↦ (u, lookup-assign k j v m ∙ rw other e)
]

register_trigger-Knows :
    (k t : Text) (i : ℕ) (ls : Lookups)
    → Knows k ls.single
    → Knows k (register_trigger t i ls).single
unfolding register_trigger
register_trigger-Knows k t i ls h = elim (Bool-cases (has_space t)) [
  | inl multi ↦ rw (register_trigger, multi) h
  | inr single ↦ rw (register_trigger, single) (assign_other-Knows k t i ls.single h)
]

register_all_keeps :
    (k : Text) (ts : List Text) (i : ℕ) (ls : Lookups)
    → Knows k ls.single
    → Knows k (register_all ts i ls).single
unfolding register_all
register_all_keeps k [] i ls h = h
register_all_keeps k (t ∷ ts) i ls h =
    register_all_keeps k ts i (register_trigger t i ls) (register_trigger-Knows k t i ls h)

register_all-Knows :
    (k : Text) (ts : List Text) (i : ℕ) (ls : Lookups)
    → has_space k ≡ false
    → OneOf k ts
    → Knows k (register_all ts i ls).single
unfolding register_all register_trigger
register_all-Knows k [] i ls word m = elim m [ ]
register_all-Knows k (t ∷ ts) i ls word (inl e) =
    register_all_keeps k ts i (register_trigger t i ls) (
      subst (λ u. Knows k (register_trigger u i ls).single) (sym e)
        (rw (register_trigger, word) (assign-Knows k i ls.single)))
register_all-Knows k (t ∷ ts) i ls word (inr m) =
    register_all-Knows k ts i (register_trigger t i ls) word m

index_from_keeps :
    (k : Text) (p : Platform) (i : ℕ) (cmds : List Command) (ls : Lookups)
    → Knows k ls.single
    → Knows k (index_from p i cmds ls).single
unfolding index_from
index_from_keeps k p i [] ls h = h
index_from_keeps k p i (cmd ∷ cmds) ls h = elim (Bool-cases (command_enabled p cmd)) [
  | inl on ↦
      rw (index_from, on)
        (index_from_keeps k p (suc i) cmds (register_all (cmd.trigger ∷ cmd.aliases) i ls)
          (register_all_keeps k (cmd.trigger ∷ cmd.aliases) i ls h))
  | inr off ↦ rw (index_from, off) (index_from_keeps k p (suc i) cmds ls h)
]

index_from-Knows :
    (k : Text) (p : Platform) (i j : ℕ) (cmds : List Command) (ls : Lookups) (cmd : Command)
    → has_space k ≡ false
    → command_at cmds j ≡ some cmd
    → command_enabled p cmd ≡ true
    → OneOf k (cmd.trigger ∷ cmd.aliases)
    → Knows k (index_from p i cmds ls).single
unfolding index_from command_at
index_from-Knows k p i j [] ls cmd word here on m = ground (arith, here)
index_from-Knows k p i zero (c ∷ cmds) ls cmd word here on m =
    let same : cmd ≡ c = cc in
    let on' : command_enabled p c ≡ true = ap (command_enabled p) (sym same) ∙ on in
    let m' = subst (λ (d : Command). OneOf k (d.trigger ∷ d.aliases)) same m in
    rw (index_from, on')
      (index_from_keeps k p (suc i) cmds (register_all (c.trigger ∷ c.aliases) i ls)
        (register_all-Knows k (c.trigger ∷ c.aliases) i ls word m'))
index_from-Knows k p i (suc j) (c ∷ cmds) ls cmd word here on m =
    elim (Bool-cases (command_enabled p c)) [
      | inl both ↦
          rw (index_from, both)
            (index_from-Knows k p (suc i) j cmds (register_all (c.trigger ∷ c.aliases) i ls) cmd
              word here on m)
      | inr skipped ↦
          rw (index_from, skipped) (index_from-Knows k p (suc i) j cmds ls cmd word here on m)
    ]

-- The place holds a command that the platform runs and that has the name.
abbrev pub HasName : Platform → List Command → Text → ℕ → Type 0
HasName p cmds name i =
    (cmd : Command) × (command_at cmds i ≡ some cmd)
    × (command_enabled p cmd ≡ true)
    × OneOf name (cmd.trigger ∷ cmd.aliases)

-- No rune that a client adds at the end.
abbrev pub IsPlain : List Text → Type 0
IsPlain [] = Unit
IsPlain (w ∷ []) = same_text w (917504 ∷ []) ≡ false
IsPlain (w ∷ v ∷ ws) = IsPlain (v ∷ ws)

-- The words are the params, but for that rune.
abbrev pub AreParams : List Text → List Text → Type 0
AreParams params words = (IsPlain words × (words ≡ params)) ⊎ (words ≡ params ++ (917504 ∷ []) ∷ [])

-- Words that begin with the name, its bang in one word with it or apart from it, and go on with the
-- params.
pub data IsTyped (to_lower : Text → Text) (name : Text) (params : List Text)
    : List Text → Type 0 where
  glued :
      (w : Text) (rest : List Text)
      → to_lower w ≡ name
      → same_text name (codes "!") ≡ false
      → AreParams params rest
      → IsTyped to_lower name params (w ∷ rest)
  apart :
      (bang w : Text) (rest : List Text)
      → to_lower bang ≡ codes "!"
      → codes "!" ++ to_lower w ≡ name
      → AreParams (w ∷ params) rest
      → IsTyped to_lower name params (bang ∷ rest)

drop_tag-plain : (ws : List Text) → IsPlain ws → drop_tag ws ≡ ws
drop_tag-plain [] h = refl
drop_tag-plain (w ∷ []) h = ground (arith, h)
drop_tag-plain (w ∷ v ∷ ws) h = ap (w ∷◌) (drop_tag-plain (v ∷ ws) h)

drop_tag-tagged : (ws : List Text) → drop_tag (ws ++ (917504 ∷ []) ∷ []) ≡ ws
drop_tag-tagged [] = refl
drop_tag-tagged (w ∷ []) = refl
drop_tag-tagged (w ∷ v ∷ ws) = ap (w ∷◌) (drop_tag-tagged (v ∷ ws))

drop_tag-params : (params words : List Text) → AreParams params words → drop_tag words ≡ params
drop_tag-params params words (inl (h, same)) = drop_tag-plain words h ∙ same
drop_tag-params params words (inr tagged) = ap drop_tag tagged ∙ drop_tag-tagged params

spaced-glued :
    (to_lower : Text → Text) (name : Text) (params : List Text)
    → same_text name (codes "!") ≡ false
    → spaced to_lower name params ≡ (name, params)
spaced-glued to_lower name [] h = refl
spaced-glued to_lower name (p ∷ ps) h = rw h refl

parse-typed :
    (ws : Words) (name : Text) (params words : List Text)
    → IsTyped ws.to_lower name params words
    → parse ws words ≡ (name, params)
unfolding parse
parse-typed ws name params words (glued w rest low other h) =
    ap (λ c. spaced ws.to_lower c (drop_tag rest)) low
    ∙ ap (spaced ws.to_lower name) (drop_tag-params params rest h)
    ∙ spaced-glued ws.to_lower name params other
parse-typed ws name params words (apart bang w rest low is h) =
    ap (λ c. spaced ws.to_lower c (drop_tag rest)) low
    ∙ ap (spaced ws.to_lower (codes "!")) (drop_tag-params (w ∷ params) rest h)
    ∙ ap (λ n. (n, params)) is

-- A message that begins with a name, up to case, and goes on with the params, where the name is a
-- trigger or an alias of one word of a command that the platform runs, finds such a command, never a
-- misspelling, a state or another fallback, with that name and with the params as they were typed,
-- in their own case. A bang may stand apart from its word, and the rune that some clients add at the
-- end is no param. No alias of several words begins the message.
pub find_command_named :
    (ws : Words) (p : Platform) (cmds : List Command) (message name : Text) (params : List Text)
    (i : ℕ)
    → HasName p cmds name i
    → has_space name ≡ false
    → IsTyped ws.to_lower name params (words_of ws message)
    → find_multi ws.equal_fold (words_of ws message) (index_commands p cmds).multi ≡ none
    → (j : ℕ) × HasName p cmds name j
      × (find_command ws (index_commands p cmds) message ≡ some (j, name, params))
unfolding find_command index_commands
find_command_named ws p cmds message name params i (cmd, here, on, m) word typed single =
    let ls = index_from p 0 cmds (record { single = []; multi = [] }) in
    let (j, found) =
      index_from-Knows name p 0 i cmds (record { single = []; multi = [] }) cmd word here on m in
    let both =
      index_from-BothRun (HasName p cmds) p 0 cmds (record { single = []; multi = [] })
        (λ j c t at runs m'.
          subst (HasName p cmds t) {x = j} {y = 0 + j} (omega arith) (c, at, runs, m'))
        (tt, tt) in
    let parsed = parse-typed ws name params (words_of ws message) typed in
    (j, lookup-Runs (HasName p cmds) name ls.single j both.0 found, rw (single, parsed, found) refl)
