-- ===== src/Watchdog/Silent/Detection.antt =====
-- WatchSilentDisconnect: a dark channel is recovered, also when the live-check is unreliable.
use tripbot.Base.{
  ◌+◌, ◌≤◌, ◌<◌, ◌≡◌, ◌⊎◌, inl, inr, false, none, some, List, [], ◌∷◌, arith, count, count-append,
  All,
}
use tripbot.Clock.{Time, since}
use tripbot.Watchdog.{steady}
use tripbot.Watchdog.Silent.{Config, Tick, State, stale_after, max_recovery_rounds, tick, run}
use tripbot.Watchdog.Silent.Rounds.{is_restart, restarts}
use tripbot.Watchdog.Silent.Evidence.{is_offline}

-- OBS pushes throughout, and each live-check either answers that the channel is offline or fails
-- while the last answer is not yet stale.
abbrev pub IsDark : Config → Time → List Tick → Type 0
IsDark c last [] = Unit
IsDark c last (t ∷ ts) =
    (t.obs ≡ some steady)
    × (((t.live ≡ some false) × IsDark c (some t.answered_at) ts)
        ⊎ ((t.live ≡ none) × (since last t.answered_at ≤ stale_after c) × IsDark c last ts))

-- The cooldown of the last restart is over on every tick.
abbrev pub IsCool : Config → Time → List Tick → Type 0
IsCool c last = All λ t. c.cooldown ≤ since last t.answered_at

tick_offline :
    (c : Config) (s : State) (t : Tick)
    → t.obs ≡ some steady
    → t.live ≡ some false
    → s.rounds < max_recovery_rounds
    → c.cooldown ≤ since s.last_restart t.answered_at
    → (restarts (tick c s t).1 ≡ 1)
      ⊎ (((tick c s t).0.misses ≡ s.misses + 1)
          × (s.misses + 1 < c.threshold)
          × ((tick c s t).0.rounds ≡ s.rounds)
          × ((tick c s t).0.last_restart ≡ s.last_restart)
          × ((tick c s t).0.last_answer ≡ some t.answered_at))
unfolding tick
tick_offline c s t o l r k = ground arith

tick_failed :
    (c : Config) (s : State) (t : Tick)
    → t.obs ≡ some steady
    → t.live ≡ none
    → since s.last_answer t.answered_at ≤ stale_after c
    → ((tick c s t).0.misses ≡ s.misses)
      × ((tick c s t).0.rounds ≡ s.rounds)
      × ((tick c s t).0.last_restart ≡ s.last_restart)
      × ((tick c s t).0.last_answer ≡ s.last_answer)
unfolding tick
tick_failed c s t o l f = ground arith

-- With OBS steady on every tick, rounds left, the misses below the threshold and the cooldown
-- over, a channel that stays dark is restarted once its offline answers, with the misses so far,
-- reach the threshold: failed live-checks in between, if the last answer is not stale, delay the
-- restart and do not prevent it.
pub run_detects :
    (c : Config) (s : State) (ts : List Tick)
    → s.misses < c.threshold
    → s.rounds < max_recovery_rounds
    → IsCool c s.last_restart ts
    → IsDark c s.last_answer ts
    → c.threshold ≤ s.misses + count is_offline ts
    → 0 < restarts (run c s ts).1
unfolding run
run_detects c s [] below left cool dark enough = absurd (omega arith)
run_detects c s (t ∷ ts) below left cool (pushing, inl (offline, dark)) enough =
    let u = tick c s t in
    elim (tick_offline c s t pushing offline left cool.0) [
      | inl hit ↦ omega (arith, hit, count-append is_restart u.1 (run c u.0 ts).1)
      | inr (m, short, r, k, a) ↦ omega (
        arith,
        count-append is_restart u.1 (run c u.0 ts).1,
        run_detects c u.0 ts (omega arith) (omega arith) (rw k cool.1) (rw a dark) (ground arith),
      )
    ]
run_detects c s (t ∷ ts) below left cool (pushing, inr (failed, fresh, dark)) enough =
    let u = tick c s t in
    let (m, r, k, a) = tick_failed c s t pushing failed fresh in
    omega (
      arith,
      count-append is_restart u.1 (run c u.0 ts).1,
      run_detects c u.0 ts (omega arith) (omega arith) (rw k cool.1) (rw a dark) (ground arith),
    )
