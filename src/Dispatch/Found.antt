-- ===== src/Dispatch/Found.antt =====
-- Chat dispatch: a message never reaches a command outside the platform's scope.
use tripbot.Base.{
  ℕ, ◌+◌, ◌≡◌, refl, inl, inr, Bool, true, false, not, ◌&&◌, ◌||◌, Option, none, some, List, [],
  ◌∷◌, ◌++◌, Text, codes, has_prefix, split, length, ltb, if◌then◌else◌, arith, Bool-cases,
  Option-cases, ◌==◌, subst,
}
use tripbot.Fuzzy.{fuzzy_lookup}
use tripbot.Fuzzy.Entries.{fuzzy_lookup-All}
use tripbot.Dispatch.Registry.{
  Command, Platform, command_enabled, Index, Lookups, lookup, index_commands, command_at,
}
use tripbot.Dispatch.Lookup.{
  Words, Found, find_multi, state_guess_params, longest, split_spaceless, parse, find_command,
  or_else, with_words, bare, by_state, by_split, banged, words_of, take, join, is_bare_word,
}
use tripbot.Dispatch.Enabled.{Runs, AllRun, BothRun, index_from-BothRun, lookup-Runs, longest-Runs}

abbrev FoundRuns : (ℕ → Type 0) → Found → Type 0
FoundRuns P none = Unit
FoundRuns P (some (i, typed, params)) = P i

or_else-FoundRuns :
    (P : ℕ → Type 0) (f g : Found) → FoundRuns P f → FoundRuns P g → FoundRuns P (or_else f g)
or_else-FoundRuns P none g h k = k
or_else-FoundRuns P (some f) g h k = h

with_words-FoundRuns :
    (P : ℕ → Type 0) (typed : Text) (params : List Text) (o : Option ℕ)
    → ((i : ℕ) → o ≡ some i → P i)
    → FoundRuns P (with_words typed params o)
with_words-FoundRuns P typed params none h = tt
with_words-FoundRuns P typed params (some i) h = h i refl

if-FoundRuns :
    (P : ℕ → Type 0) (b : Bool) (f : Found)
    → FoundRuns P f
    → FoundRuns P (if b then f else none) × FoundRuns P (if b then none else f)
if-FoundRuns P true f h = (h, tt)
if-FoundRuns P false f h = (tt, h)

find_multi-FoundRuns :
    (P : ℕ → Type 0) (equal_fold : Text → Text → Bool) (words : List Text) (m : Index)
    → AllRun (λ k. P) m
    → FoundRuns P (find_multi equal_fold words m)
unfolding find_multi
find_multi-FoundRuns P equal_fold words [] h = tt
find_multi-FoundRuns P equal_fold words ((alias, i) ∷ m) h =
    let n = length (split b' ' alias) in
    let skips = ltb (length words) n || not (equal_fold (join (take n words)) alias) in
    elim (Bool-cases skips) [
      | inl skip ↦ rw (find_multi, skip) (find_multi-FoundRuns P equal_fold words m h.1)
      | inr hit ↦ rw (find_multi, hit) h.0
    ]

by_split-FoundRuns :
    (P : ℕ → Type 0) (ws : Words) (command : Text) (params : List Text) (o : Option (ℕ × Text))
    → ((i : ℕ) (rest : Text) → o ≡ some (i, rest) → P i)
    → FoundRuns P (by_split ws command params o)
by_split-FoundRuns P ws command params none h = tt
by_split-FoundRuns P ws command params (some (i, rest)) h =
    (if-FoundRuns P (length (state_guess_params ws (codes "!" ++ rest) params) == 0)
      (some (i, command, rest ∷ params)) (h i rest refl)).1

split_spaceless-Runs :
    (P : ℕ → Type 0) (command : Text) (m : Index) (i : ℕ) (rest : Text)
    → AllRun (λ k. P) m
    → split_spaceless command m ≡ some (i, rest)
    → P i
unfolding split_spaceless
split_spaceless-Runs P command m i rest h e = elim (Option-cases (longest command m none 0)) [
  | inl none' ↦ ground (arith, e, none')
  | inr ((v, n), at) ↦
      let same : v ≡ i = ground (arith, e, at) in
      subst P same (longest-Runs P command m none 0 v n h (λ j is. absurd (ground (arith, is))) at)
]

banged-FoundRuns :
    (P : ℕ → Type 0) (ws : Words) (ls : Lookups) (command : Text) (params : List Text)
    → BothRun (λ k. P) ls
    → FoundRuns P (banged ws ls command params)
banged-FoundRuns P ws ls command params h =
    let words = state_guess_params ws command params in
    let state =
      with_words (codes "!" ++ ws.to_lower (join words)) words
        (lookup (codes "!guess") ls.single) in
    let near = with_words command params (fuzzy_lookup ls.single command) in
    let cut = by_split ws command params (split_spaceless command ls.single) in
    let fallbacks = or_else (by_state ws ls command params) (or_else near cut) in
    (if-FoundRuns P (has_prefix (codes "!") command) fallbacks (
      or_else-FoundRuns P (by_state ws ls command params) (or_else near cut)
        (if-FoundRuns P (length words == 0) state (
          with_words-FoundRuns P (codes "!" ++ ws.to_lower (join words)) words
            (lookup (codes "!guess") ls.single)
            (λ i e. lookup-Runs (λ k. P) (codes "!guess") ls.single i h.0 e))).1
        (or_else-FoundRuns P near cut
          (with_words-FoundRuns P command params (fuzzy_lookup ls.single command)
            (λ i e. fuzzy_lookup-All P command ls.single i h.0 e))
          (by_split-FoundRuns P ws command params (split_spaceless command ls.single)
            (λ i rest e. split_spaceless-Runs P command ls.single i rest h.0 e))))).0

find_command-FoundRuns :
    (P : ℕ → Type 0) (ws : Words) (ls : Lookups) (message : Text)
    → BothRun (λ k. P) ls
    → FoundRuns P (find_command ws ls message)
unfolding find_command
find_command-FoundRuns P ws ls message h =
    let words = words_of ws message in
    let command = (parse ws words).0 in
    let params = (parse ws words).1 in
    let direct = with_words command params (lookup command ls.single) in
    let plain = bare ls command params in
    let last = banged ws ls command params in
    or_else-FoundRuns P (find_multi ws.equal_fold words ls.multi)
      (or_else direct (or_else plain last))
      (find_multi-FoundRuns P ws.equal_fold words ls.multi h.1)
      (or_else-FoundRuns P direct (or_else plain last)
        (with_words-FoundRuns P command params (lookup command ls.single)
          (λ i e. lookup-Runs (λ k. P) command ls.single i h.0 e))
        (or_else-FoundRuns P plain last
          (if-FoundRuns P (length params == 0 && is_bare_word command)
            (with_words (codes "!" ++ command) [] (lookup (codes "!" ++ command) ls.single))
            (with_words-FoundRuns P (codes "!" ++ command) []
              (lookup (codes "!" ++ command) ls.single)
              (λ i e. lookup-Runs (λ k. P) (codes "!" ++ command) ls.single i h.0 e))).0
          (banged-FoundRuns P ws ls command params h)))

-- Whatever a viewer types, by name, alias, state, misspelling or with a param glued on, the command
-- that is found stands in the registry and is one that the platform runs.
pub find_command_enabled :
    (ws : Words) (p : Platform) (cmds : List Command) (message : Text) (i : ℕ) (typed : Text)
    (params : List Text)
    → find_command ws (index_commands p cmds) message ≡ some (i, typed, params)
    → (cmd : Command) × (command_at cmds i ≡ some cmd) × (command_enabled p cmd ≡ true)
unfolding index_commands
find_command_enabled ws p cmds message i typed params found =
    let both =
      index_from-BothRun (λ k. Runs p cmds) p 0 cmds (record { single = []; multi = [] })
        (λ j cmd t at runs m. (
          cmd,
          subst (λ k. command_at cmds k ≡ some cmd) {x = j} {y = 0 + j} (omega arith) at,
          runs,
        ))
        (tt, tt) in
    subst (FoundRuns (Runs p cmds)) found
      (find_command-FoundRuns (Runs p cmds) ws (index_commands p cmds) message both)
