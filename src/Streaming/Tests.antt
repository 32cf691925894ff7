-- ===== src/Streaming/Tests.antt =====
-- The poller on a few passes.
use tripbot.Base.{◌≡◌, refl, true, false, if◌then◌else◌, none, some, List, [], ◌∷◌}
use tripbot.Watchdog.{steady, reconnecting}
use tripbot.Streaming.{
  stream_state_from, fresh, Attempt, gauge, emit, wait, closed, pushed, ticked, run,
  last_stream_state,
}
use tripbot.Streaming.Current.{emits, heard, run-current}

-- OBS is away twice, then steady until the connection drops, and comes back reconnecting.
abbrev passes : List Attempt
passes =
    record { dials = false; events = [] }
    ∷ record { dials = false; events = [] }
    ∷ record {
      dials = true;
      events =
          ticked (some (record { active = true; reconnects = false })) ∷ pushed none ∷ closed ∷ [];
    }
    ∷ record {
      dials = true;
      events =
          pushed (some true) ∷ ticked (some (record { active = true; reconnects = true })) ∷ [];
    }
    ∷ []

two_outages :
    (run passes 0 fresh).1
    ≡ gauge false
      ∷ emit none
      ∷ wait 20000000000
      ∷ gauge false
      ∷ emit none
      ∷ wait 40000000000
      ∷ gauge true
      ∷ emit (some steady)
      ∷ gauge false
      ∷ emit none
      ∷ wait 10000000000
      ∷ gauge true
      ∷ gauge true
      ∷ emit (some reconnecting)
      ∷ []
unfolding run
two_outages = refl

-- Beside an earlier instance's last value.
run-current_example :
    let (c, out) = run passes 0 fresh in
    (last_stream_state c ≡ some reconnecting)
    × (heard (some steady) out ≡ (if emits out then some reconnecting else some steady))
    × (emits out ≡ false → some reconnecting ≡ none)
unfolding stream_state_from
run-current_example = run-current passes (some steady)
