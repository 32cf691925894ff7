-- ===== src/Watchdog/Restart/Tests.antt =====
-- RestartOBSOutput and RestartBroadcast in concrete worlds.
use tripbot.Base.{◌≢◌, none, ◌+◌, ◌*◌, ◌≡◌, refl, true, false, some, [], ◌∷◌, arith, ltb}
use tripbot.Watchdog.Restart.{
  World, stop_stream, disconnect, start_stream, pause, teardown_settle, ok, stop_output,
  await_stopped, await_offline, retry_start, start_after_stop, restart_output, restart_broadcast,
}
use tripbot.Watchdog.Restart.Ends.{restarts_end}
use tripbot.Watchdog.Restart.Starts.{Restarts, restart_output_starts}

-- The output never goes down, the channel never goes offline, and the third start succeeds.
abbrev stuck : World
stuck = record {
  dials = true;
  stops = true;
  stop_began = 1000;
  stop_polls = λ n. record { canceled = false; answer = some true; at = 1000 + (n + 1) * 500 };
  offline_began = 40000;
  offline_polls =
      λ n. record { canceled = false; answer = some true; at = 40000 + (n + 1) * 15000 };
  start_expires = λ n. false;
  starts = λ n. ltb 1 n;
}

stuck_output :
    restart_output 60 stuck
    ≡ some (
      ok,
      stop_stream
          ∷ disconnect
          ∷ pause 3000
          ∷ start_stream false
          ∷ pause 5000
          ∷ start_stream false
          ∷ pause 5000
          ∷ start_stream true
          ∷ [],
    )
unfolding restart_output stop_output await_stopped start_after_stop retry_start
stuck_output = refl

-- The wait for the channel stands in for the settling pause.
stuck_broadcast :
    restart_broadcast 60 stuck
    ≡ some (
      ok,
      stop_stream
          ∷ disconnect
          ∷ pause 0
          ∷ start_stream false
          ∷ pause 5000
          ∷ start_stream false
          ∷ pause 5000
          ∷ start_stream true
          ∷ [],
    )
unfolding restart_broadcast stop_output await_stopped await_offline start_after_stop retry_start
stuck_broadcast = refl

restart_output_starts_example : Restarts teardown_settle stuck (restart_output 60 stuck)
restart_output_starts_example = restart_output_starts stuck refl refl (λ n. omega arith)

restarts_end_example : (restart_output 60 stuck ≢ none) × (restart_broadcast 60 stuck ≢ none)
restarts_end_example =
    restarts_end 60 stuck (omega arith) (omega arith) (omega arith) (λ n. omega arith)
      (λ n. omega arith)
