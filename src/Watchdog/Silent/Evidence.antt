-- ===== src/Watchdog/Silent/Evidence.antt =====
-- WatchSilentDisconnect: what has to be seen before a restart is forced.
use tripbot.Base.{
  ◌+◌, ◌-◌, ◌≤◌, ◌<◌, ◌≡◌, refl, ◌≢◌, ◌⊎◌, inr, ◌↔◌, Bool, true, false, Option, none, some, List,
  [], ◌∷◌, arith, count, count-append,
}
use tripbot.Clock.{since}
use tripbot.Watchdog.{StreamState, steady, reconnecting}
use tripbot.Watchdog.Silent.{
  Config, Tick, State, stamp, reconnect_grace, max_recovery_rounds, tick, run,
}
use tripbot.Watchdog.Silent.Rounds.{is_restart, restarts}

-- OBS's output is steady, or has been reconnecting for the whole grace.
abbrev pub IsPushing : State → Tick → Type 0
IsPushing s t =
    (t.obs ≡ some steady)
    ⊎ ((t.obs ≡ some reconnecting)
        × (reconnect_grace ≤ since (stamp s.reconnecting_since t.seen_at) t.seen_at))

-- A tick forces at most one restart, and forces one exactly when OBS pushes, the channel is offline, the misses reach the
-- threshold, rounds are left, and the last restart is a cooldown ago.
pub tick-restart_iff :
    (c : Config) (s : State) (t : Tick)
    → (restarts (tick c s t).1 ≤ 1)
      × ((restarts (tick c s t).1 ≡ 1) ↔ (
          IsPushing s t
          × (t.live ≡ some false)
          × (c.threshold ≤ s.misses + 1)
          × (s.rounds < max_recovery_rounds)
          × (c.cooldown ≤ since s.last_restart t.answered_at)))
unfolding tick
tick-restart_iff c s t = (ground arith, (λ h. ground arith, λ h. ground arith))

-- An answer that the channel is offline, given while OBS does not report a stopped output.
abbrev offline_answer : Option StreamState → Option Bool → Bool
offline_answer (some steady) (some false) = true
offline_answer (some reconnecting) (some false) = true
offline_answer _ _ = false

abbrev pub is_offline : Tick → Bool
is_offline t = offline_answer t.obs t.live

tick-misses :
    (c : Config) (s : State) (t : Tick)
    → (tick c s t).0.misses ≤ s.misses + count is_offline (t ∷ [])
unfolding tick
tick-misses c s t = ground arith

tick_early :
    (c : Config) (s : State) (t : Tick)
    → s.misses + count is_offline (t ∷ []) < c.threshold
    → restarts (tick c s t).1 ≡ 0
unfolding tick
tick_early c s t h = ground arith

-- When the offline answers of the ticks, with the misses so far, stay below the threshold, no
-- restart is forced.
pub run_early :
    (c : Config) (s : State) (ts : List Tick)
    → s.misses + count is_offline ts < c.threshold
    → restarts (run c s ts).1 ≡ 0
unfolding run
run_early c s [] h = refl
run_early c s (t ∷ ts) h =
    let u = tick c s t in
    omega (
      arith,
      tick-misses c s t,
      tick_early c s t (omega arith),
      run_early c u.0 ts (omega (arith, tick-misses c s t)),
      count-append is_restart u.1 (run c u.0 ts).1,
    )

tick-last_restart :
    (c : Config) (s : State) (t : Tick)
    → restarts (tick c s t).1 ≡ 0
    → ((tick c s t).0.last_restart ≡ none) ⊎ ((tick c s t).0.last_restart ≡ s.last_restart)
unfolding tick
tick-last_restart c s t h = ground arith

run-last_restart :
    (c : Config) (s : State) (ts : List Tick)
    → restarts (run c s ts).1 ≡ 0
    → ((run c s ts).0.last_restart ≡ none) ⊎ ((run c s ts).0.last_restart ≡ s.last_restart)
unfolding run
run-last_restart c s [] h = inr refl
run-last_restart c s (t ∷ ts) h =
    let u = tick c s t in
    ground (
      arith,
      tick-last_restart c s t,
      run-last_restart c u.0 ts,
      count-append is_restart u.1 (run c u.0 ts).1,
    )

tick-stamps :
    (c : Config) (s : State) (t : Tick)
    → restarts (tick c s t).1 ≡ 1
    → (tick c s t).0.last_restart ≡ some t.answered_at
unfolding tick
tick-stamps c s t h = ground arith

-- Two restarts with none between them are at least a cooldown apart, unless a recovery that held
-- has retired the restart time in between.
pub restart_spacing :
    (c : Config) (s : State) (t : Tick) (ts : List Tick) (u : Tick)
    → let after = run c (tick c s t).0 ts in
      restarts (tick c s t).1 ≡ 1
      → restarts after.1 ≡ 0
      → after.0.last_restart ≢ none
      → restarts (tick c after.0 u).1 ≡ 1
      → c.cooldown ≤ u.answered_at - t.answered_at
unfolding since
restart_spacing c s t ts u first quiet kept second =
    let after = run c (tick c s t).0 ts in
    ground (
      arith,
      tick-stamps c s t first,
      run-last_restart c (tick c s t).0 ts quiet,
      (tick-restart_iff c after.0 u).1.0 second,
    )
