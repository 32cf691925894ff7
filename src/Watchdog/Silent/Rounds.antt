-- ===== src/Watchdog/Silent/Rounds.antt =====
-- WatchSilentDisconnect: how many recoveries are run before it stands down.
use tripbot.Base.{
  ℕ, ◌+◌, ◌*◌, ◌≤◌, ◌<◌, ◌≡◌, refl, ◌≢◌, Bool, true, false, none, some, List, [], ◌∷◌, arith, count,
  count-append, All,
}
use tripbot.Watchdog.{inactive}
use tripbot.Watchdog.Silent.{
  Config, Tick, State, Effect, gauge, restart, max_recovery_rounds, start, tick, run,
}

pub record IsValid (s : State) : Type 0 where
  pub capped : s.rounds ≤ max_recovery_rounds
  pub spent : s.exhausted ≡ true → s.rounds ≡ max_recovery_rounds
  pub stamped : 0 < s.rounds → s.last_restart ≢ none

pub start-IsValid : IsValid start.0
unfolding start
start-IsValid = ground arith

-- Every tick, whatever it reads, keeps the rounds within the maximum, keeps `exhausted` for the
-- maximum alone, and keeps a restart time beside a positive count of rounds.
pub tick-IsValid : (c : Config) (s : State) (t : Tick) → IsValid s → IsValid (tick c s t).0
unfolding tick
tick-IsValid c s t v = ground arith

pub run-IsValid : (c : Config) (s : State) (ts : List Tick) → IsValid s → IsValid (run c s ts).0
unfolding run
run-IsValid c s [] v = v
run-IsValid c s (t ∷ ts) v = run-IsValid c (tick c s t).0 ts (tick-IsValid c s t v)

abbrev pub is_restart : Effect → Bool
is_restart restart = true
is_restart _ = false

abbrev pub is_rearm : Effect → Bool
is_rearm (gauge false) = true
is_rearm _ = false

abbrev pub restarts : List Effect → ℕ
restarts = count is_restart

abbrev pub rearms : List Effect → ℕ
rearms = count is_rearm

tick-rounds :
    (c : Config) (s : State) (t : Tick)
    → IsValid s
    → restarts (tick c s t).1 + s.rounds
      ≤ (tick c s t).0.rounds + max_recovery_rounds * rearms (tick c s t).1
unfolding tick
tick-rounds c s t v = ground arith

-- Over any ticks, from any valid state, the restarts number at most three for each re-arming and
-- three more, less the rounds already used.
pub run-restarts_le :
    (c : Config) (s : State) (ts : List Tick)
    → IsValid s
    → restarts (run c s ts).1 + s.rounds
      ≤ max_recovery_rounds + max_recovery_rounds * rearms (run c s ts).1
unfolding run
run-restarts_le c s [] v = ground arith
run-restarts_le c s (t ∷ ts) v =
    let u = tick c s t in
    omega (
      arith,
      tick-rounds c s t v,
      run-restarts_le c u.0 ts (tick-IsValid c s t v),
      count-append is_restart u.1 (run c u.0 ts).1,
      count-append is_rearm u.1 (run c u.0 ts).1,
    )

-- OBS has not stopped its output on this tick, and the channel is not seen live.
abbrev pub IsHopeless : Tick → Type 0
IsHopeless t = (t.obs ≢ some inactive) × (t.live ≢ some true)

tick_exhausted :
    (c : Config) (s : State) (t : Tick)
    → IsValid s
    → s.exhausted ≡ true
    → IsHopeless t
    → ((tick c s t).0.exhausted ≡ true) × ((tick c s t).1 ≡ [])
unfolding tick
tick_exhausted c s t v e h = ground arith

-- From a valid state that is exhausted, the watchdog has no effect at all, and stays exhausted,
-- as long as OBS does not stop its output and the channel is not seen live.
pub run_exhausted :
    (c : Config) (s : State) (ts : List Tick)
    → IsValid s
    → s.exhausted ≡ true
    → All IsHopeless ts
    → ((run c s ts).0.exhausted ≡ true) × ((run c s ts).1 ≡ [])
unfolding run
run_exhausted c s [] v e h = (e, refl)
run_exhausted c s (t ∷ ts) v e h =
    let (still, silent) = tick_exhausted c s t v e h.0 in
    ground (arith, silent, run_exhausted c (tick c s t).0 ts (tick-IsValid c s t v) still h.1)
