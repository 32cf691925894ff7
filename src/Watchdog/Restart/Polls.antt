-- ===== src/Watchdog/Restart/Polls.antt =====
-- awaitOutputStopped and awaitOffline: enough fuel, and what an answer means.
use tripbot.Base.{ℕ, zero, suc, ◌+◌, ◌*◌, ◌≤◌, ◌<◌, ◌≢◌, false, none, some, arith}
use tripbot.Watchdog.Restart.{
  Poll, stop_timeout, stop_poll, offline_timeout, offline_poll, await_stopped, await_offline,
}

-- Poll `n` ends at least `n + 1` pauses after the wait began.
abbrev pub IsPaced : ℕ → ℕ → (ℕ → Poll) → Type 0
IsPaced pause began polls = (n : ℕ) → began + (n + 1) * pause ≤ (polls n).at

module _ (began : ℕ) (polls : ℕ → Poll) where
  pub await_stopped-ne-none :
      IsPaced stop_poll began polls
      → (fuel n : ℕ) → 0 < fuel
      → stop_timeout ≤ (n + fuel) * stop_poll
      → await_stopped (began + stop_timeout) polls fuel n ≢ none
  unfolding await_stopped
  await_stopped-ne-none paced zero n h k = absurd (omega arith)
  await_stopped-ne-none paced (suc zero) n h k = ground (arith, paced n)
  await_stopped-ne-none paced (suc (suc fuel)) n h k =
      ground (arith, paced n, await_stopped-ne-none paced (suc fuel) (suc n))

  pub await_offline-ne-none :
      IsPaced offline_poll began polls
      → (fuel n : ℕ) → 0 < fuel
      → offline_timeout ≤ (n + fuel) * offline_poll
      → await_offline (began + offline_timeout) polls fuel n ≢ none
  unfolding await_offline
  await_offline-ne-none paced zero n h k = absurd (omega arith)
  await_offline-ne-none paced (suc zero) n h k = ground (arith, paced n)
  await_offline-ne-none paced (suc (suc fuel)) n h k =
      ground (arith, paced n, await_offline-ne-none paced (suc fuel) (suc n))

-- A wait that succeeds has read that the output is down, or the channel offline.
pub await_stopped_sound :
    (deadline : ℕ) (polls : ℕ → Poll)
    → ((m : ℕ) → (polls m).answer ≢ some false)
    → (fuel n : ℕ) → await_stopped deadline polls fuel n ≢ some none
unfolding await_stopped
await_stopped_sound deadline polls never zero n = ground arith
await_stopped_sound deadline polls never (suc fuel) n =
    ground (arith, never n, await_stopped_sound deadline polls never fuel (suc n))
