-- ===== src/Beds/Events.antt =====
-- The store in use: operators ask for switches, timers run, the audio watchdog swaps the fallback
-- and advances the album, and OBS restarts. Each event has its own answers of the environment.
use tripbot.Base.{ℕ, Bool, true, false, none, List, [], ◌∷◌, ◌++◌, Text, if◌then◌else◌}
use tripbot.Beds.Store.{
  Bed, radio, carhum, album, Source, World, Config, Env, Call, Outcome, new_store,
}
use tripbot.Beds.Requests.{set, set_station, set_voicing, apply_now, fire}
use tripbot.Beds.Fallback.{advance, swap_to_fallback, swap_to_radio, detect}

pub data Request : Type 0 where
  to_bed : Bed → Request
  to_station : Text → Request
  to_voicing : Text → Request

unfoldable pub request : Config → Env → Request → World → Outcome
request c e (to_bed bed) w = set c e bed w
request c e (to_station station) w = set_station c e station w
request c e (to_voicing voicing) w = set_voicing c e voicing w

pub data Event : Type 0 where
  asks : Env → Request → Event
  lands_now : Env → Event
  timer_runs : Env → ℕ → Event
  track_ends : Env → Event
  falls_back : Env → Event
  comes_back : Env → Event
  reads_back : Env → Event
  obs_restarts : Source → Event

-- The watchdog swaps back to the radio only while the radio is the selected bed.
abbrev pub if_radio : Bed → Outcome → World → Outcome
if_radio radio done w = done
if_radio carhum done w = (w, none, [])
if_radio album done w = (w, none, [])

unfoldable pub step : Config → Event → World → Outcome
step c (asks e r) w = request c e r w
step c (lands_now e) w = apply_now c e w
step c (timer_runs e i) w = fire c e i w
step c (track_ends e) w = advance c e w
step c (falls_back e) w = if_radio w.store.bed (swap_to_fallback e w) w
step c (comes_back e) w = if_radio w.store.bed (swap_to_radio c e w) w
step c (reads_back e) w = (detect c e w, none, [])
step c (obs_restarts src) w = (record w { source = src }, none, [])

unfoldable pub run : Config → List Event → World → World
run c [] w = w
run c (ev ∷ evs) w = run c evs (step c ev w).0

-- A bot that starts beside an OBS with this source.
unfoldable pub started : Config → Bed → Source → World
started c bed src = record { store = new_store c bed; source = src; timers = [] }

abbrev pub is_request : Event → Bool
is_request (asks e r) = true
is_request _ = false

-- The events that carry out a switch.
abbrev pub lands : Event → Bool
lands (asks e r) = true
lands (lands_now e) = true
lands (timer_runs e i) = true
lands _ = false

-- The calls to OBS that switches make along the events.
unfoldable pub switch_calls : Config → List Event → World → List Call
switch_calls c [] w = []
switch_calls c (ev ∷ evs) w =
    let o = step c ev w in (if lands ev then o.2 else []) ++ switch_calls c evs o.0
