-- ===== src/Beds/Reach.antt =====
-- Store: the invariant over every event, from a start that reads the source back.
use tripbot.Base.{
  if◌then◌else◌, ◌≡◌, refl, inl, inr, Bool, true, false, Option, none, some, List, [], ◌∷◌, All,
  ◌==◌, if◌then◌else◌, Bool-cases,
}
use tripbot.Beds.Stations.{AreNamed}
use tripbot.Beds.Store.{
  Bed, radio, carhum, album, valid, Switch, Source, Timer, World, Config, Env, Failure, Outcome,
}
use tripbot.Beds.Fallback.{swap_to_fallback, swap_to_radio, detect}
use tripbot.Beds.Sound.{heard, says, IsSelectable, IsTruthful, IsApart, IsSound}
use tripbot.Beds.Queue
use tripbot.Beds.Store.{apply_pending, no_station, unknown_station, unknown_voicing, new_store}
use tripbot.Beds.Requests.{
  schedule, set, set_station, set_voicing, tuned, apply_now, fire, land, callback, stop, switch_to,
  timer_at, without_timer, next_gen,
}
use tripbot.Beds.Events.{
  Request, to_bed, to_station, to_voicing, request, Event, asks, lands_now, timer_runs, track_ends,
  falls_back, comes_back, reads_back, obs_restarts, step, run, started, if_radio,
}
use tripbot.Beds.Truth.{apply_pending-IsTruthful, same_sound}
use tripbot.Beds.Swaps.{swap_to_fallback-IsTruthful, swap_to_radio-IsTruthful}
use tripbot.Beds.Advance.{advance-IsTruthful}
use tripbot.Beds.Detect.{IsReadable, detect-IsTruthful}
use tripbot.Beds.Readable.{IsTruthful-detect}

refused_truth :
    (c : Config) (b : Bool) (w : World) (f : Option Failure) (o : Outcome)
    → IsTruthful c w
    → IsTruthful c o.0
    → IsTruthful c (if b then (w, f, []) else o).0 × IsTruthful c (if b then o else (w, f, [])).0
refused_truth c true w f o h k = (h, k)
refused_truth c false w f o h k = (k, h)

schedule-IsTruthful :
    (c : Config) (e : Env) (sw : Switch) (w : World)
    → IsApart c
    → valid sw.bed ≡ true
    → IsTruthful c w
    → IsTruthful c (schedule c e sw w).0
unfolding schedule
schedule-IsTruthful c e sw w apart v h = elim (Bool-cases (c.switch_delay == 0)) [
  | inl inline ↦ rw (schedule, inline) (apply_pending-IsTruthful c e sw w.store.gen w apart v h)
  | inr held ↦
      rw (schedule, held)
        (same_sound c w _ (refl, refl, refl, refl, refl, refl) v
          (v, Queue.stop-All (λ t. valid t.1.bed ≡ true) w.store.timer e w.timers h.timers) h)
]

request-IsTruthful :
    (c : Config) (e : Env) (r : Request) (w : World)
    → IsApart c
    → IsTruthful c w
    → IsTruthful c (request c e r w).0
unfolding request set set_station set_voicing valid
request-IsTruthful c e (to_bed radio) w apart h =
    let sw = switch_to radio (tuned c w.store.station) w.store.voicing in
    (refused_truth c _ w (some no_station) (schedule c e sw w) h
      (schedule-IsTruthful c e sw w apart refl h)).0
request-IsTruthful c e (to_bed carhum) w apart h =
    schedule-IsTruthful c e (switch_to carhum w.store.station w.store.voicing) w apart refl h
request-IsTruthful c e (to_bed album) w apart h = h
request-IsTruthful c e (to_station station) w apart h =
    let sw = switch_to radio station w.store.voicing in
    (refused_truth c _ w (some unknown_station) (schedule c e sw w) h
      (schedule-IsTruthful c e sw w apart refl h)).1
request-IsTruthful c e (to_voicing voicing) w apart h =
    let sw = switch_to carhum w.store.station voicing in
    (refused_truth c _ w (some unknown_voicing) (schedule c e sw w) h
      (schedule-IsTruthful c e sw w apart refl h)).1

land-IsTruthful :
    (c : Config) (e : Env) (w : World) (p : Option Switch)
    → IsApart c
    → IsSelectable p
    → IsTruthful c w
    → IsTruthful c (land c e w p).0
land-IsTruthful c e w none apart v h = h
land-IsTruthful c e w (some sw) apart v h =
    let gen = next_gen w.store.gen in
    let w' : World = record w {
      store = record w.store { gen = gen };
      timers = stop w.store.timer e w.timers;
    } in
    apply_pending-IsTruthful c e sw gen w' apart v (
      same_sound c w w' (refl, refl, refl, refl, refl, refl) h.waiting
        (Queue.stop-All (λ t. valid t.1.bed ≡ true) w.store.timer e w.timers h.timers) h)

callback-IsTruthful :
    (c : Config) (e : Env) (w : World) (t : Option Timer)
    → IsApart c
    → ((u : Timer) → t ≡ some u → valid u.1.bed ≡ true)
    → IsTruthful c w
    → IsTruthful c (callback c e w t).0
callback-IsTruthful c e w none apart v h = h
callback-IsTruthful c e w (some (gen, sw)) apart v h =
    (refused_truth c _ w none (apply_pending c e sw gen w) h
      (apply_pending-IsTruthful c e sw gen w apart (v (gen, sw) refl) h)).1

if_radio_truth :
    (c : Config) (bed : Bed) (w : World) (o : Outcome)
    → (bed ≡ radio → IsTruthful c o.0)
    → IsTruthful c w
    → IsTruthful c (if_radio bed o w).0
if_radio_truth c radio w o h k = h refl
if_radio_truth c carhum w o h k = k
if_radio_truth c album w o h k = k

-- No restart of OBS, and a library and chances as they are.
abbrev pub IsFine : Config → Event → Type 0
IsFine c (track_ends e) = IsSound c e
IsFine c (falls_back e) = IsSound c e
IsFine c (reads_back e) = IsSound c e
IsFine c (obs_restarts src) = ⊥
IsFine c _ = Unit

step-IsTruthful :
    (c : Config) (ev : Event) (w : World)
    → IsApart c
    → AreNamed c.stations
    → IsFine c ev
    → IsTruthful c w
    → IsTruthful c (step c ev w).0
unfolding step apply_now fire
step-IsTruthful c (asks e r) w apart named fine v = request-IsTruthful c e r w apart v
step-IsTruthful c (lands_now e) w apart named fine v =
    land-IsTruthful c e w w.store.pending apart v.waiting v
step-IsTruthful c (timer_runs e i) w apart named fine v =
    callback-IsTruthful c e (record w { timers = without_timer w.timers i }) (timer_at w.timers i)
      apart (λ u found. Queue.timer_at-All (λ t. valid t.1.bed ≡ true) w.timers i u v.timers found)
      (same_sound c w _ (refl, refl, refl, refl, refl, refl) v.waiting
        (Queue.without_timer-All (λ t. valid t.1.bed ≡ true) w.timers i v.timers) v)
step-IsTruthful c (track_ends e) w apart named fine v = advance-IsTruthful c e w apart fine v
step-IsTruthful c (falls_back e) w apart named fine v =
    if_radio_truth c w.store.bed w (swap_to_fallback e w)
      (λ on_radio. swap_to_fallback-IsTruthful c e w apart fine on_radio v) v
step-IsTruthful c (comes_back e) w apart named fine v =
    if_radio_truth c w.store.bed w (swap_to_radio c e w)
      (λ on_radio. swap_to_radio-IsTruthful c e w on_radio v) v
step-IsTruthful c (reads_back e) w apart named fine v = IsTruthful-detect c e w apart fine named v
step-IsTruthful c (obs_restarts src) w apart named fine v = elim fine [ ]

pub run-IsTruthful :
    (c : Config) (evs : List Event) (w : World)
    → IsApart c
    → AreNamed c.stations
    → All (IsFine c) evs
    → IsTruthful c w
    → IsTruthful c (run c evs w)
unfolding run
run-IsTruthful c [] w apart named fine v = v
run-IsTruthful c (ev ∷ evs) w apart named fine v =
    run-IsTruthful c evs (step c ev w).0 apart named fine.1
      (step-IsTruthful c ev w apart named fine.0 v)

-- A bot that starts beside an OBS whose source it can read, and reads it back, says after any further
-- events which of the beds the source plays: the stream by its URL, the drone by its file and loop,
-- and of the album that an unlooped file of the share is on, not which. The events are requests, timers late or in time, the operator's landings,
-- swaps and advances, whether OBS accepts or refuses each call, each over before the next. OBS
-- does not restart; the
-- drones lie outside the share, where the library's tracks lie; the stations have ids of their own;
-- and the shuffle permutes.
pub run_truth :
    (c : Config) (bed : Bed) (src : Source) (e : Env) (evs : List Event)
    → IsApart c
    → AreNamed c.stations
    → IsReadable c src
    → IsSound c e
    → e.answers ≡ true
    → All (IsFine c) evs
    → let w = run c (reads_back e ∷ evs) (started c bed src) in says c w.store ≡ heard c w.source
unfolding run started step new_store
run_truth c bed src e evs apart named known sound answers fine =
    (run-IsTruthful c evs (detect c e (started c bed src)) apart named fine
      (detect-IsTruthful c e (started c bed src) apart sound named answers known tt tt tt)).agrees
