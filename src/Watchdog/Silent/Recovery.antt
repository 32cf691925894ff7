-- ===== src/Watchdog/Silent/Recovery.antt =====
-- WatchSilentDisconnect: a recovery that holds retires the cooldown and gives the rounds back.
use mathlib.Core.List.{append-nil}
use tripbot.Base.{
  ℕ, ◌+◌, ◌≤◌, ◌<◌, ◌≡◌, ◌≢◌, inl, inr, Bool, true, false, none, some, List, [], ◌∷◌, arith, count,
  All, length, if◌then◌else◌, lt_or_le,
}
use tripbot.Watchdog.{steady}
use tripbot.Watchdog.Silent.{Config, Tick, State, Effect, tell_recovered, tick, run}
use tripbot.Watchdog.Silent.Rounds.{rearms}

abbrev pub is_recovered : Effect → Bool
is_recovered tell_recovered = true
is_recovered _ = false

abbrev pub recoveries : List Effect → ℕ
recoveries = count is_recovered

-- OBS's output is steady and the channel is seen live.
abbrev pub IsLive : Tick → Type 0
IsLive t = (t.obs ≡ some steady) × (t.live ≡ some true)

abbrev IsRetired : State → Type 0
IsRetired s = (s.last_restart ≡ none) × (s.rounds ≡ 0) × (s.exhausted ≡ false) × (s.misses ≡ 0)

tick-IsRetired :
    (c : Config) (s : State) (t : Tick)
    → IsLive t
    → IsRetired s
    → IsRetired (tick c s t).0 × ((tick c s t).1 ≡ [])
unfolding tick
tick-IsRetired c s t l r = ground arith

run-IsRetired :
    (c : Config) (s : State) (ts : List Tick)
    → All IsLive ts
    → IsRetired s
    → IsRetired (run c s ts).0 × ((run c s ts).1 ≡ [])
unfolding run
run-IsRetired c s [] l r = ground arith
run-IsRetired c s (t ∷ ts) l r =
    let (r', e) = tick-IsRetired c s t l.0 r in
    ground (arith, e, run-IsRetired c (tick c s t).0 ts l.1 r')

tick_retires :
    (c : Config) (s : State) (t : Tick)
    → IsLive t
    → s.last_restart ≢ none
    → c.threshold ≤ s.live_streak + 1
    → IsRetired (tick c s t).0
      × (rearms (tick c s t).1 ≡ 1)
      × (recoveries (tick c s t).1 ≡ (if c.on_recovered then 1 else 0))
unfolding tick
tick_retires c s t l k h = ground arith

tick_streak :
    (c : Config) (s : State) (t : Tick)
    → IsLive t
    → s.live_streak + 1 < c.threshold
    → ((tick c s t).0.live_streak ≡ s.live_streak + 1)
      × ((tick c s t).0.last_restart ≡ s.last_restart)
      × ((tick c s t).1 ≡ [])
unfolding tick
tick_streak c s t l h = ground arith

-- After a restart, over ticks on which the channel is seen live, the streak below the threshold
-- at the start and reaching it: the restart time, the rounds and the stood-down state are
-- cleared, the watchdog re-arms once, and the recovery hook is told once if it is set.
pub run_recovers :
    (c : Config) (s : State) (ts : List Tick)
    → All IsLive ts
    → s.last_restart ≢ none
    → s.live_streak < c.threshold
    → c.threshold ≤ s.live_streak + length ts
    → IsRetired (run c s ts).0
      × (rearms (run c s ts).1 ≡ 1)
      × (recoveries (run c s ts).1 ≡ (if c.on_recovered then 1 else 0))
unfolding run
run_recovers c s [] l k below enough = absurd (omega arith)
run_recovers c s (t ∷ ts) l k below enough =
    let u = tick c s t in
    elim (lt_or_le (s.live_streak + 1) c.threshold) [
      | inl short ↦
          let (streak, same, silent) = tick_streak c s t l.0 short in
          rw silent (run_recovers c u.0 ts l.1 (rw same k) (omega arith) (omega arith))
      | inr held ↦
          let (retired, armed, told) = tick_retires c s t l.0 k held in
          let (still, silent) = run-IsRetired c u.0 ts l.1 retired in
          rw (silent, append-nil) (still, armed, told)
    ]
