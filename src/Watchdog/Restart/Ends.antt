-- ===== src/Watchdog/Restart/Ends.antt =====
-- RestartOBSOutput and RestartBroadcast: both end.
use tripbot.Base.{ℕ, ◌≤◌, ◌<◌, ◌*◌, ◌≢◌, none, arith}
use tripbot.Watchdog.Restart.{
  World, stop_poll, offline_poll, stop_timeout, offline_timeout, stop_output, restart_output,
  restart_broadcast,
}
use tripbot.Watchdog.Restart.Polls.{IsPaced, await_stopped-ne-none, await_offline-ne-none}

-- With every poll at least an interval after the one before, both restarts end, whatever OBS, the
-- platform and the start context answer: neither wait takes more polls than a number that fills the
-- time allowed for the stop and the time allowed for the channel to go offline, such as 60.
pub restarts_end :
    (fuel : ℕ) (w : World)
    → 0 < fuel
    → stop_timeout ≤ fuel * stop_poll
    → offline_timeout ≤ fuel * offline_poll
    → IsPaced stop_poll w.stop_began w.stop_polls
    → IsPaced offline_poll w.offline_began w.offline_polls
    → (restart_output fuel w ≢ none) × (restart_broadcast fuel w ≢ none)
unfolding restart_output restart_broadcast stop_output
restarts_end fuel w some_fuel stop_fits offline_fits paced paced' =
    let stops =
      await_stopped-ne-none w.stop_began w.stop_polls paced fuel 0 some_fuel
        (omega (arith, stop_fits)) in
    let offline =
      await_offline-ne-none w.offline_began w.offline_polls paced' fuel 0 some_fuel
        (omega (arith, offline_fits)) in
    (ground (arith, stops), ground (arith, stops, offline))
