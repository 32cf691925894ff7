-- ===== src/Watchdog/Cap/Attempts.antt =====
-- WatchBroadcastCap: how often one broadcast is restarted.
use tripbot.Base.{
  ℕ, zero, suc, ◌+◌, ◌-◌, ◌≤◌, ◌≡◌, refl, sym, ap, ◌∙◌, Bool, true, false, Option, some, List, [],
  ◌∷◌, arith, ltb, count, count-append, All, if◌then◌else◌, not, inl, inr, Bool-cases,
}
use tripbot.Clock.{Time}
use tripbot.Watchdog.{StreamState, steady}
use tripbot.Watchdog.Cap.{
  Config, Tick, State, Effect, restart, leave, cap_restart_attempts, equal, tick, run,
}

abbrev is_restart : Effect → Bool
is_restart (restart b) = true
is_restart _ = false

abbrev is_warning : Effect → Bool
is_warning (leave b) = true
is_warning _ = false

abbrev pub restarts : List Effect → ℕ
restarts = count is_restart

abbrev pub warnings : List Effect → ℕ
warnings = count is_warning

abbrev readable : Option StreamState → Option Time → Bool
readable (some steady) (some (some began)) = true
readable _ _ = false

-- The loop acts on a tick of the broadcast that began at `began`: OBS is steady, the start time is
-- known, and the broadcast is at least `max_age` old.
abbrev pub is_due : Config → ℕ → Tick → Bool
is_due c began t = if readable t.obs t.started then not (ltb t.now (began + c.max_age)) else false

abbrev Answers : ℕ → Option Time → Type 0
Answers began (some (some b)) = b ≡ began
Answers began _ = Unit {0}

-- A tick reads no other broadcast than the one that began at `began`.
abbrev pub IsOf : ℕ → Tick → Type 0
IsOf began t = Answers began t.started

-- The plan for one broadcast: each due tick is a try, until one succeeds or the tries are used up.
unfoldable pub planned : Config → ℕ → ℕ → List Tick → ℕ
planned c began zero ts = 0
planned c began (suc left) [] = 0
planned c began (suc left) (t ∷ ts) =
    let failed = suc (planned c began left ts) in
    let skipped = planned c began (suc left) ts in
    if is_due c began t then (if t.restart_ok then 1 else failed) else skipped

-- The tries that the state leaves to a broadcast.
abbrev pub budget : ℕ → State → ℕ
budget began s =
    if equal (some began) s.restarted_for
    then (if s.restarted then 0 else cap_restart_attempts - s.attempts)
    else cap_restart_attempts

tick_spent :
    (c : Config) (began : ℕ) (s : State) (t : Tick)
    → IsOf began t
    → budget began s ≡ 0
    → (restarts (tick c s t).1 ≡ 0) × (budget began (tick c s t).0 ≡ 0)
unfolding tick
tick_spent c began s t o h = ground arith

tick_skips :
    (c : Config) (began : ℕ) (s : State) (t : Tick)
    → IsOf began t
    → is_due c began t ≡ false
    → (restarts (tick c s t).1 ≡ 0) × (budget began (tick c s t).0 ≡ budget began s)
unfolding tick
tick_skips c began s t o h = ground arith

tick_tries :
    (c : Config) (began left : ℕ) (s : State) (t : Tick)
    → IsOf began t
    → is_due c began t ≡ true
    → budget began s ≡ suc left
    → (restarts (tick c s t).1 ≡ 1)
      × (budget began (tick c s t).0 ≡ (if t.restart_ok then 0 else left))
unfolding tick
tick_tries c began left s t o d h = ground arith

run_spent :
    (c : Config) (began : ℕ) (s : State) (ts : List Tick)
    → All (IsOf began) ts
    → budget began s ≡ 0
    → restarts (run c s ts).1 ≡ 0
unfolding run
run_spent c began s [] o h = refl
run_spent c began s (t ∷ ts) o h =
    let u = tick c s t in
    let (none_now, still) = tick_spent c began s t o.0 h in
    omega (
      arith,
      none_now,
      run_spent c began u.0 ts o.1 still,
      count-append is_restart u.1 (run c u.0 ts).1,
    )

planned-zero : (c : Config) (began : ℕ) (ts : List Tick) → planned c began 0 ts ≡ 0
unfolding planned
planned-zero c began [] = refl
planned-zero c began (t ∷ ts) = refl

module _ (c : Config) (began left : ℕ) (t : Tick) (ts : List Tick) where
  planned_idle :
      is_due c began t ≡ false → planned c began (suc left) (t ∷ ts) ≡ planned c began (suc left) ts
  unfolding planned
  planned_idle d = ground arith

  planned_won :
      is_due c began t ≡ true → t.restart_ok ≡ true → planned c began (suc left) (t ∷ ts) ≡ 1
  unfolding planned
  planned_won d o = ground arith

  planned_lost :
      is_due c began t ≡ true
      → t.restart_ok ≡ false
      → planned c began (suc left) (t ∷ ts) ≡ suc (planned c began left ts)
  unfolding planned
  planned_lost d o = ground arith

after_try : (left : ℕ) {ok b : Bool} → ok ≡ b → (if ok then 0 else left) ≡ (if b then 0 else left)
after_try left e = ap (λ ok. if ok then 0 else left) e

run-planned_from :
    (c : Config) (began left : ℕ) (s : State) (ts : List Tick)
    → All (IsOf began) ts
    → budget began s ≡ left
    → restarts (run c s ts).1 ≡ planned c began left ts
unfolding run
run-planned_from c began zero s ts o h = run_spent c began s ts o h ∙ sym (planned-zero c began ts)
run-planned_from c began (suc left) s [] o h = unfold planned in refl
run-planned_from c began (suc left) s (t ∷ ts) o h =
    let u = tick c s t in
    let split = count-append is_restart u.1 (run c u.0 ts).1 in
    elim (Bool-cases (is_due c began t)) [
      | inr idle ↦
          let (no_try, same) = tick_skips c began s t o.0 idle in
          omega (
            arith,
            split,
            no_try,
            planned_idle c began left t ts idle,
            run-planned_from c began (suc left) u.0 ts o.1 (same ∙ h),
          )
      | inl due ↦
          let (one, after) = tick_tries c began left s t o.0 due h in
          elim (Bool-cases t.restart_ok) [
            | inl won ↦ omega (
              arith,
              split,
              one,
              planned_won c began left t ts due won,
              run_spent c began u.0 ts o.1 (after ∙ after_try left won),
            )
            | inr lost ↦ omega (
              arith,
              split,
              one,
              planned_lost c began left t ts due lost,
              run-planned_from c began left u.0 ts o.1 (after ∙ after_try left lost),
            )
          ]
    ]

-- As long as no other broadcast is read, the restarts of a broadcast are those of the plan over the
-- tries that the state leaves to it.
pub run-planned :
    (c : Config) (began : ℕ) (s : State) (ts : List Tick)
    → All (IsOf began) ts
    → restarts (run c s ts).1 ≡ planned c began (budget began s) ts
run-planned c began s ts o = run-planned_from c began (budget began s) s ts o refl

planned-le : (c : Config) (began left : ℕ) (ts : List Tick) → planned c began left ts ≤ left
unfolding planned
planned-le c began zero ts = omega arith
planned-le c began (suc left) [] = omega arith
planned-le c began (suc left) (t ∷ ts) =
    ground (arith, planned-le c began left ts, planned-le c began (suc left) ts)

abbrev warned : ℕ → State → ℕ
warned began s = if equal (some began) s.warned_for then 1 else 0

tick_warns :
    (c : Config) (began : ℕ) (s : State) (t : Tick)
    → IsOf began t
    → warnings (tick c s t).1 + warned began s ≡ warned began (tick c s t).0
unfolding tick
tick_warns c began s t o = ground arith

run_warns :
    (c : Config) (began : ℕ) (s : State) (ts : List Tick)
    → All (IsOf began) ts
    → warnings (run c s ts).1 + warned began s ≡ warned began (run c s ts).0
unfolding run
run_warns c began s [] o = omega arith
run_warns c began s (t ∷ ts) o =
    let u = tick c s t in
    omega (
      arith,
      tick_warns c began s t o.0,
      run_warns c began u.0 ts o.1,
      count-append is_warning u.1 (run c u.0 ts).1,
    )

-- Over ticks that read no other broadcast, one broadcast is restarted at most three times, and
-- is warned about at most once.
pub run_bounded :
    (c : Config) (began : ℕ) (s : State) (ts : List Tick)
    → All (IsOf began) ts
    → (restarts (run c s ts).1 ≤ cap_restart_attempts) × (warnings (run c s ts).1 ≤ 1)
run_bounded c began s ts o = (
  ground (arith, run-planned c began s ts o, planned-le c began (budget began s) ts),
  ground (arith, run_warns c began s ts o),
)
