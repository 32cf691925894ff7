-- ===== src/Beds/Latest.antt =====
-- Store: of the requested switches, only the latest one lands, and at most once.
use tripbot.Base.{
  ◌+◌, ◌≤◌, ◌<◌, ◌≡◌, refl, inr, Bool, true, false, none, some, List, [], ◌∷◌, All, length, ◌==◌,
  if◌then◌else◌, arith,
}
use tripbot.Beds.Paths.{car_hum_file}
use tripbot.Beds.Stations.{stream_url}
use tripbot.Beds.Store.{
  new_store, Bed, radio, carhum, album, valid, Switch, World, Config, Env, Call, network, local,
  Failure, Outcome, Source, no_station, unknown_station, unknown_voicing,
}
use tripbot.Beds.Requests.{
  gen_modulus, next_gen, stop, schedule, set, set_station, set_voicing, tuned, switch_to,
}
use tripbot.Beds.Events.{
  Request, to_bed, to_station, to_voicing, request, Event, run, is_request, switch_calls, started,
}
use tripbot.Beds.Queue
use tripbot.Beds.Waiting.{Waits, call_of, raised}
use tripbot.Beds.Steps.{waits-run}
use tripbot.Beds.Numbers.{IsOrdered, run-Numbers}

-- The call that a request stands for, in the world where it is made: the radio bed tunes the station
-- of the store, or the default one where that is not a public station.
abbrev pub asked : Config → World → Request → Call
asked c w (to_bed radio) = network (stream_url c.stations (tuned c w.store.station))
asked c w (to_bed carhum) = local (car_hum_file w.store.voicing) true
asked c w (to_bed album) = local [] false
asked c w (to_station station) = network (stream_url c.stations station)
asked c w (to_voicing voicing) = local (car_hum_file voicing) true

-- What follows an accepted request, when nothing else is requested.
abbrev LandsOnce : Config → Call → List Event → Outcome → Type 0
LandsOnce c call after o =
    (o.2 ≡ [])
    × (length (switch_calls c after o.0) ≤ 1)
    × All (λ d. d ≡ call) (switch_calls c after o.0)

schedule-LandsOnce :
    (c : Config) (e : Env) (sw : Switch) (w : World) (after : List Event)
    → valid sw.bed ≡ true
    → 0 < c.switch_delay
    → w.store.gen + 1 + length after < gen_modulus
    → IsOrdered w.store.gen w
    → All (λ ev. is_request ev ≡ false) after
    → LandsOnce c (call_of c sw) after (schedule c e sw w)
unfolding schedule
schedule-LandsOnce c e sw w after v delay fits h quiet =
    let held = record sw { at = some (e.now + c.switch_delay) } in
    let gen = next_gen w.store.gen in
    let timers = stop w.store.timer e w.timers in
    let up =
      raised held w.store.gen gen timers (omega arith)
        (Queue.stop-All (λ t. t.0 ≤ w.store.gen) w.store.timer e w.timers h) in
    let o = schedule c e sw w in
    let nonzero : (c.switch_delay == 0) ≡ false = ground arith in
    let waits : Waits held gen (some held) ((gen, held) ∷ timers) = record {
      held = inr refl;
      carried = ((omega arith, λ e. refl), up.0);
      once = ground (arith, up.1);
    } in
    let w' = record w {
      store = record w.store { gen = gen; pending = some held; timer = some gen };
      timers = (gen, held) ∷ timers;
    } in
    let ran = waits-run c held after w' v quiet (omega arith) waits in
    rw (schedule, nonzero) (refl, ran.0, ran.1)

refusal :
    (c : Config) (call : Call) (after : List Event) (w : World) (f : Failure) (b : Bool)
    (o : Outcome)
    → LandsOnce c call after o
    → ((if b then (w, some f, []) else o).1 ≡ none
        → LandsOnce c call after (if b then (w, some f, []) else o))
      × ((if b then o else (w, some f, [])).1 ≡ none
          → LandsOnce c call after (if b then o else (w, some f, [])))
refusal c call after w f true o h = (λ e. ground arith, λ e. h)
refusal c call after w f false o h = (λ e. h, λ e. ground arith)

request-LandsOnce :
    (c : Config) (e : Env) (r : Request) (w : World) (after : List Event)
    → 0 < c.switch_delay
    → w.store.gen + 1 + length after < gen_modulus
    → IsOrdered w.store.gen w
    → All (λ ev. is_request ev ≡ false) after
    → (request c e r w).1 ≡ none
    → LandsOnce c (asked c w r) after (request c e r w)
unfolding request set set_station set_voicing valid
request-LandsOnce c e (to_bed radio) w after delay fits h quiet accepted =
    let sw = switch_to radio (tuned c w.store.station) w.store.voicing in
    (refusal c (asked c w (to_bed radio)) after w no_station _ (schedule c e sw w)
        (schedule-LandsOnce c e sw w after refl delay fits h quiet)).0
      accepted
request-LandsOnce c e (to_bed carhum) w after delay fits h quiet accepted =
    schedule-LandsOnce c e (switch_to carhum w.store.station w.store.voicing) w after refl delay
      fits h quiet
request-LandsOnce c e (to_bed album) w after delay fits h quiet accepted = ground arith
request-LandsOnce c e (to_station station) w after delay fits h quiet accepted =
    let sw = switch_to radio station w.store.voicing in
    (refusal c (asked c w (to_station station)) after w unknown_station _ (schedule c e sw w)
        (schedule-LandsOnce c e sw w after refl delay fits h quiet)).1
      accepted
request-LandsOnce c e (to_voicing voicing) w after delay fits h quiet accepted =
    let sw = switch_to carhum w.store.station voicing in
    (refusal c (asked c w (to_voicing voicing)) after w unknown_voicing _ (schedule c e sw w)
        (schedule-LandsOnce c e sw w after refl delay fits h quiet)).1
      accepted

-- When no two methods of the store overlap, each one's OBS call being answered before the next begins:
-- whatever happened before, an accepted request makes no call to OBS itself, and until the next
-- request the switches make at most one call, the one that this request stands for: no superseded
-- switch lands, whichever timers still run and however often the operator lands it by hand. The
-- delay is not zero, and fewer than 2^64 events are counted.
pub request-lands_latest :
    (c : Config) (bed : Bed) (src : Source) (before after : List Event) (e : Env) (r : Request)
    → 0 < c.switch_delay
    → length before + 1 + length after < gen_modulus
    → All (λ ev. is_request ev ≡ false) after
    → (request c e r (run c before (started c bed src))).1 ≡ none
    → let w = run c before (started c bed src) in
      let o = request c e r w in
      (o.2 ≡ [])
      × (length (switch_calls c after o.0) ≤ 1)
      × All (λ call. call ≡ asked c w r) (switch_calls c after o.0)
unfolding started new_store
request-lands_latest c bed src before after e r delay fits quiet =
    let n = run-Numbers c before (started c bed src) (omega arith) tt in
    request-LandsOnce c e r (run c before (started c bed src)) after delay (omega (arith, n.0)) n.1
      quiet
