-- ===== src/Dispatch/Runs.antt =====
-- Chat dispatch: what the event log keeps of a message.
use tripbot.Base.{
  ℕ, ◌≤◌, ◌≡◌, refl, inl, inr, Bool, true, false, Option, none, some, List, [], ◌∷◌, ◌++◌, count,
  Text, same_text, if◌then◌else◌, arith, Option-cases,
}
use tripbot.Dispatch.Registry.{Command, command_at, index_commands}
use tripbot.Dispatch.Lookup.{Found, find_command, words_of, join}
use tripbot.Dispatch.Gates.{
  User, Refusal, Reply, Effect, handle, record_refusal, record_run, App, check_access, replies,
  after_check, dispatch, not_found, run_found, run_command,
}

abbrev is_refusal : Effect → Bool
is_refusal (record_refusal c args r) = true
is_refusal _ = false

-- The rows of refusals.
abbrev refusals : List Effect → ℕ
refusals = count is_refusal

-- The calls of a handler, with their params.
abbrev handled : List Effect → List (ℕ × List Text)
handled [] = []
handled (handle i params ∷ es) = (i, params) ∷ handled es
handled (e ∷ es) = handled es

-- The rows of runs: the command, the token as typed, the args.
abbrev runs : List Effect → List (Text × Text × Text)
runs [] = []
runs (record_run c typed args ∷ es) = (c, typed, args) ∷ runs es
runs (e ∷ es) = runs es

after_replies :
    (rs : List Reply) (es : List Effect)
    → (handled (replies rs ++ es) ≡ handled es)
      × (refusals (replies rs ++ es) ≡ refusals es)
      × (runs (replies rs ++ es) ≡ runs es)
after_replies [] es = (refl, refl, refl)
after_replies (r ∷ rs) es = let (h, f, n) = after_replies rs es in (h, omega (arith, f), n)

-- How the dispatch of a message ends: no handler is called, no run is recorded, and at most one
-- refusal; or the handler of the command that was found is called with the params that were found,
-- no refusal is recorded, and one run of that command unless the handler refused by itself, with the
-- args, and with the token if it differs from the trigger.
pub data OneWay (commands : List Command) (refuses : Bool) (found : Found) (es : List Effect)
    : Type 0 where
  not_run : handled es ≡ [] → runs es ≡ [] → refusals es ≤ 1 → OneWay commands refuses found es
  run :
      (cmd : Command) (i : ℕ) (typed : Text) (params : List Text)
      → found ≡ some (i, typed, params)
      → command_at commands i ≡ some cmd
      → handled es ≡ (i, params) ∷ []
      → refusals es ≡ 0
      → runs es ≡ (
          if refuses
          then []
          else (cmd.trigger, (if same_text typed cmd.trigger then [] else typed), join params) ∷ [])
      → OneWay commands refuses found es

after_check-OneWay :
    (commands : List Command) (refuses : Bool) (cmd : Command) (i : ℕ) (typed : Text)
    (params : List Text) (verdict : Option Refusal) (rs : List Reply)
    → command_at commands i ≡ some cmd
    → OneWay commands refuses
        (some (i, typed, params))
        (after_check refuses cmd i typed params (verdict, rs))
after_check-OneWay commands refuses cmd i typed params (some r) rs here =
    let (h, f, n) = after_replies rs (record_refusal cmd.trigger (join params) r ∷ []) in
    not_run h n (omega (arith, f))
after_check-OneWay commands true cmd i typed params none rs here =
    let (h, f, n) = after_replies rs (handle i params ∷ []) in
    run cmd i typed params refl here h f n
after_check-OneWay commands false cmd i typed params none rs here =
    let token = if same_text typed cmd.trigger then [] else typed in
    let (h, f, n) =
      after_replies rs (handle i params ∷ record_run cmd.trigger token (join params) ∷ []) in
    run cmd i typed params refl here h f n

not_found-OneWay :
    (commands : List Command) (a : App) (refuses : Bool) (words : List Text)
    → OneWay commands refuses none (not_found a words)
not_found-OneWay commands a refuses words = not_run (ground arith) (ground arith) (ground arith)

run_found-OneWay :
    (a : App) (refuses : Bool) (u : User) (words : List Text) (f : Found)
    → OneWay a.commands refuses f (run_found a refuses u words f)
unfolding dispatch
run_found-OneWay a refuses u words none = not_found-OneWay a.commands a refuses words
run_found-OneWay a refuses u words (some (i, typed, params)) =
    elim (Option-cases (command_at a.commands i)) [
      | inl gone ↦ rw gone (not_run refl refl (omega arith))
      | inr (cmd, here) ↦
          let (verdict, rs) = check_access a cmd u in
          rw here (after_check-OneWay a.commands refuses cmd i typed params verdict rs here)
    ]

-- A message calls at most one handler, or the dispatch records at most one refusal, never both. The
-- handler is that of the command which `findCommand` finds, with its params, and its run is recorded
-- once, under that command's trigger, with the token if it was typed otherwise and the params as
-- args, unless the handler refused by itself; else no run is recorded.
pub run_command-OneWay :
    (a : App) (refuses : Bool) (u : User) (message : Text)
    → OneWay a.commands refuses
        (find_command a.words (index_commands a.platform a.commands) message)
        (run_command a refuses u message)
unfolding run_command
run_command-OneWay a refuses u message =
    run_found-OneWay a refuses u (words_of a.words message)
      (find_command a.words (index_commands a.platform a.commands) message)
