-- ===== src/Dispatch/Refused.antt =====
-- Chat dispatch: what a viewer is told about a name that the platform does not run.
use tripbot.Base.{
  ℕ, zero, suc, ◌≡◌, ◌⊎◌, refl, inl, inr, Bool, true, false, none, some, List, [], ◌∷◌, Text, codes,
  has_prefix, arith, Bool-cases, subst, sym, ap, ◌∙◌,
}
use tripbot.Dispatch.Registry.{
  Command, command_enabled, command_at, index_commands, unindexed_command, any_fold, Platform,
}
use tripbot.Dispatch.Lookup.{find_command, words_of, join, rest_of}
use tripbot.Dispatch.Gates.{
  User, reply, record_refusal, App, spoken, wrong_platform, unknown_command, wrong_platform_msg,
  run_command,
}

-- One of the names folds to the token.
abbrev pub NamedFold : (Text → Text → Bool) → Text → List Text → Type 0
NamedFold equal_fold token [] = ⊥
NamedFold equal_fold token (t ∷ ts) = (equal_fold t token ≡ true) ⊎ NamedFold equal_fold token ts

any_fold-true :
    (equal_fold : Text → Text → Bool) (token : Text) (ts : List Text)
    → any_fold equal_fold token ts ≡ true
    → NamedFold equal_fold token ts
any_fold-true equal_fold token [] h = ground (arith, h)
any_fold-true equal_fold token (t ∷ ts) h = elim (Bool-cases (equal_fold t token)) [
  | inl same ↦ inl same
  | inr other ↦ inr (any_fold-true equal_fold token ts (ground (arith, h, other)))
]

true-any_fold :
    (equal_fold : Text → Text → Bool) (token : Text) (ts : List Text)
    → NamedFold equal_fold token ts
    → any_fold equal_fold token ts ≡ true
true-any_fold equal_fold token [] h = elim h [ ]
true-any_fold equal_fold token (t ∷ ts) (inl same) = rw same refl
true-any_fold equal_fold token (t ∷ ts) (inr h) =
    ground (arith, true-any_fold equal_fold token ts h)

-- A command of the registry that the platform does not run has the name.
abbrev pub IsElsewhere : (Text → Text → Bool) → Platform → List Command → Text → Type 0
IsElsewhere equal_fold p cmds token =
    (i : ℕ) × (cmd : Command) × (command_at cmds i ≡ some cmd)
    × (command_enabled p cmd ≡ false)
    × NamedFold equal_fold token (cmd.trigger ∷ cmd.aliases)

later_IsElsewhere :
    (equal_fold : Text → Text → Bool) (p : Platform) (cmd : Command) (cmds : List Command)
    (token : Text)
    → IsElsewhere equal_fold p cmds token
    → IsElsewhere equal_fold p (cmd ∷ cmds) token
unfolding command_at
later_IsElsewhere equal_fold p cmd cmds token (i, other, here, off, named) =
    (suc i, other, here, off, named)

unindexed-IsElsewhere :
    (equal_fold : Text → Text → Bool) (p : Platform) (cmds : List Command) (token : Text)
    → unindexed_command equal_fold p cmds token ≡ true
    → IsElsewhere equal_fold p cmds token
unfolding unindexed_command command_at
unindexed-IsElsewhere equal_fold p [] token h = ground (arith, h)
unindexed-IsElsewhere equal_fold p (cmd ∷ cmds) token h =
    let later = λ (k : unindexed_command equal_fold p cmds token ≡ true).
      later_IsElsewhere equal_fold p cmd cmds token
        (unindexed-IsElsewhere equal_fold p cmds token k) in
    elim (Bool-cases (command_enabled p cmd)) [
      | inl on ↦ later (ground (arith, h, on))
      | inr off ↦ elim (Bool-cases (any_fold equal_fold token (cmd.trigger ∷ cmd.aliases))) [
        | inl named ↦
            (0, cmd, refl, off, any_fold-true equal_fold token (cmd.trigger ∷ cmd.aliases) named)
        | inr other ↦ later (ground (arith, h, off, other))
      ]
    ]

IsElsewhere-unindexed :
    (equal_fold : Text → Text → Bool) (p : Platform) (cmds : List Command) (token : Text) (i : ℕ)
    (cmd : Command)
    → command_at cmds i ≡ some cmd
    → command_enabled p cmd ≡ false
    → NamedFold equal_fold token (cmd.trigger ∷ cmd.aliases)
    → unindexed_command equal_fold p cmds token ≡ true
unfolding unindexed_command command_at
IsElsewhere-unindexed equal_fold p [] token i cmd here off named = ground (arith, here)
IsElsewhere-unindexed equal_fold p (c ∷ cmds) token zero cmd here off named =
    let same : c ≡ cmd = cc in
    let off' : command_enabled p c ≡ false = ap (command_enabled p) same ∙ off in
    let named' : NamedFold equal_fold token (c.trigger ∷ c.aliases) =
      subst (λ (d : Command). NamedFold equal_fold token (d.trigger ∷ d.aliases)) (sym same)
        named in
    ground (arith, off', true-any_fold equal_fold token (c.trigger ∷ c.aliases) named')
IsElsewhere-unindexed equal_fold p (c ∷ cmds) token (suc i) cmd here off named =
    ground (arith, IsElsewhere-unindexed equal_fold p cmds token i cmd here off named)

-- A message that begins with a bang and finds no command: if the registry has a command of that
-- name, up to case, which the platform does not run, the viewer is told so and the refusal says
-- wrong platform; if it has none, there is no reply and the refusal says unknown.
pub run_command_refuses :
    (a : App) (refuses : Bool) (u : User) (message : Text)
    → find_command a.words (index_commands a.platform a.commands) message ≡ none
    → has_prefix (codes "!") (spoken a.words.to_lower (words_of a.words message)) ≡ true
    → let command = spoken a.words.to_lower (words_of a.words message) in
      let args = join (rest_of (words_of a.words message)) in
      let elsewhere = IsElsewhere a.words.equal_fold a.platform a.commands command in
      (elsewhere
        × (run_command a refuses u message
            ≡ reply (wrong_platform_msg command) ∷ record_refusal command args wrong_platform ∷ []))
      ⊎ ((¬ elsewhere)
          × (run_command a refuses u message ≡ record_refusal command args unknown_command ∷ []))
unfolding run_command
run_command_refuses a refuses u message lost bang =
    let command = spoken a.words.to_lower (words_of a.words message) in
    let known = unindexed_command a.words.equal_fold a.platform a.commands command in
    elim (Bool-cases known) [
      | inl yes' ↦ inl (
        unindexed-IsElsewhere a.words.equal_fold a.platform a.commands command yes',
        rw (lost, bang, yes') refl,
      )
      | inr no' ↦ inr (
        λ (i, cmd, here, off, named). cc (
          IsElsewhere-unindexed a.words.equal_fold a.platform a.commands command i cmd here off
              named,
          no',
        ),
        rw (lost, bang, no') refl,
      )
    ]
