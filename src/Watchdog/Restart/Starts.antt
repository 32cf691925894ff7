-- ===== src/Watchdog/Restart/Starts.antt =====
-- Once OBS has accepted the stop, the start always runs.
use tripbot.Base.{
  ℕ, zero, suc, ◌+◌, ◌≤◌, ◌≡◌, refl, ap, ◌↔◌, ◌⊎◌, inl, inr, Bool, true, false, Option, none, some,
  List, [], ◌∷◌, arith, count, if◌then◌else◌, Option-cases, Bool-cases,
}
use tripbot.Watchdog.Restart.{
  PollError, Call, stop_stream, disconnect, start_stream, pause, teardown_settle, Result, ok,
  not_stopped, Stopped, dial_failed, stop_refused, World, stop_poll, offline_poll, stop_timeout,
  offline_timeout, start_attempts, await_stopped, await_offline, stop_output, retry_start,
  start_after_stop, restart_output, restart_broadcast,
}
use tripbot.Watchdog.Restart.Polls.{IsPaced, await_stopped-ne-none, await_offline-ne-none}

abbrev is_start : Call → Bool
is_start (start_stream b) = true
is_start _ = false

abbrev is_success : Call → Bool
is_success (start_stream b) = b
is_success _ = false

abbrev pub tries : List Call → ℕ
tries = count is_start

abbrev pub successes : List Call → ℕ
successes = count is_success

retry_start_counts :
    (w : World) (i left : ℕ)
    → (successes (retry_start w i left).1 ≡ (if (retry_start w i left).0 then 1 else 0))
      × (tries (retry_start w i left).1 ≤ left)
unfolding retry_start
retry_start_counts w i zero = ground arith
retry_start_counts w i (suc left) = ground (arith, retry_start_counts w (suc i) left)

-- Calls that begin with the settling pause and the first start, succeed once or never as the result
-- says, and hold at most three starts.
pub record StartsAgain (settle : ℕ) (w : World) (r : Result) (cs : List Call) : Type 0 where
  pub rest : List Call
  pub begins : cs ≡ pause settle ∷ start_stream (w.starts 0) ∷ rest
  pub succeeds : (r ≡ ok) ↔ (successes cs ≡ 1)
  pub bounded : tries cs ≤ start_attempts

retry_first :
    (w : World) (left : ℕ)
    → (rest : List Call) × ((retry_start w 0 (suc left)).1 ≡ start_stream (w.starts 0) ∷ rest)
unfolding retry_start
retry_first w left = ((if w.starts 0 then [] else (retry_start w 1 left).1), ground arith)

start_after_stop_lem :
    (settle : ℕ) (w : World) (e : Option PollError)
    → StartsAgain settle w (start_after_stop settle w e).0 (start_after_stop settle w e).1
unfolding start_after_stop
start_after_stop_lem settle w e =
    let (rest, first) = retry_first w 2 in
    let (won, few) = retry_start_counts w 0 3 in
    record {
      rest = rest;
      begins = ap (pause settle ∷◌) first;
      succeeds = (λ h. ground (arith, won), λ h. ground (arith, won));
      bounded = omega (arith, few);
    }

-- The whole run of a restart whose stop OBS accepted: the stop, the disconnect, the starts.
abbrev pub Restarts : ℕ → World → Option (Result × List Call) → Type 0
Restarts settle w o =
    (r : Result) × (starts : List Call) × (o ≡ some (r, stop_stream ∷ disconnect ∷ starts))
    × StartsAgain settle w r starts

-- If OBS can be dialed and accepts the stop, and every poll comes an interval after the one
-- before, `RestartOBSOutput` ends within 60 polls and starts the output after the stop, whatever
-- the polls answer and whether or not the context is canceled: after a
-- settling pause of three seconds it tries at most three times, the first time whatever became of
-- the start context, and succeeds exactly when a start does.
pub restart_output_starts :
    (w : World)
    → w.dials ≡ true
    → w.stops ≡ true
    → IsPaced stop_poll w.stop_began w.stop_polls
    → Restarts teardown_settle w (restart_output 60 w)
unfolding restart_output stop_output
restart_output_starts w d s paced =
    elim (Option-cases (await_stopped (w.stop_began + stop_timeout) w.stop_polls 60 0)) [
      | inl out ↦ absurd (
          await_stopped-ne-none w.stop_began w.stop_polls paced 60 0 (omega arith) (omega arith)
            out)
      | inr (none, e) ↦ (_, _, ground arith, start_after_stop_lem teardown_settle w none)
      | inr (some x, e) ↦ (_, _, ground arith, start_after_stop_lem teardown_settle w (some x))
    ]

-- The same of `RestartBroadcast`, with both of its waits polled at their intervals: it starts
-- the output after the stop, also when the channel is never seen offline.
pub restart_broadcast_starts :
    (w : World)
    → w.dials ≡ true
    → w.stops ≡ true
    → IsPaced stop_poll w.stop_began w.stop_polls
    → IsPaced offline_poll w.offline_began w.offline_polls
    → Restarts 0 w (restart_broadcast 60 w)
unfolding restart_broadcast stop_output
restart_broadcast_starts w d s paced paced' =
    elim (Option-cases (await_stopped (w.stop_began + stop_timeout) w.stop_polls 60 0)) [
      | inl out ↦ absurd (
          await_stopped-ne-none w.stop_began w.stop_polls paced 60 0 (omega arith) (omega arith)
            out)
      | inr (some x, e) ↦ (_, _, ground arith, start_after_stop_lem 0 w (some x))
      | inr (none, e) ↦
          elim (Option-cases
            (await_offline (w.offline_began + offline_timeout) w.offline_polls 60 0)) [
              | inl out ↦ absurd (
                  await_offline-ne-none w.offline_began w.offline_polls paced' 60 0 (omega arith)
                    (omega arith) out)
              | inr (x, e') ↦ (_, _, ground arith, start_after_stop_lem 0 w none)
            ]
    ]

-- If OBS cannot be dialed or refuses the stop, both restarts end with that error and start nothing.
pub restarts_refused :
    (fuel : ℕ) (w : World)
    → (w.dials ≡ false) ⊎ (w.stops ≡ false)
    → (e : Stopped) × (calls : List Call) × ((e ≡ dial_failed) ⊎ (e ≡ stop_refused))
      × (tries calls ≡ 0)
      × (restart_output fuel w ≡ some (not_stopped e, calls))
      × (restart_broadcast fuel w ≡ some (not_stopped e, calls))
unfolding restart_output restart_broadcast stop_output
restarts_refused fuel w h = elim (Bool-cases w.dials) [
  | inl d ↦
      (stop_refused, stop_stream ∷ disconnect ∷ [], inr refl, refl, ground arith, ground arith)
  | inr d ↦ (dial_failed, [], inl refl, refl, ground arith, ground arith)
]
