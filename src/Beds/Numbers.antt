-- ===== src/Beds/Numbers.antt =====
-- Store: how the events number the switches, so that a new one is later than every callback.
use tripbot.Base.{
  ℕ, ◌+◌, ◌≤◌, ◌<◌, inl, inr, Bool, true, false, Option, none, some, List, [], ◌∷◌, All, length,
  ◌==◌, if◌then◌else◌, arith, Bool-cases,
}
use tripbot.Beds.Store.{
  radio, carhum, album, Switch, Timer, World, Config, Env, Failure, Outcome, apply_pending,
  no_station, unknown_station, unknown_voicing,
}
use tripbot.Beds.Requests.{
  gen_modulus, next_gen, stop, schedule, set, set_station, set_voicing, tuned, apply_now, fire,
  land, callback, switch_to, timer_at, without_timer,
}
use tripbot.Beds.Events.{
  Request, to_bed, to_station, to_voicing, request, Event, asks, lands_now, timer_runs, step, run,
}
use tripbot.Beds.Queue
use tripbot.Beds.Steps.{step-SameQueue}

-- Every callback was made at the current gen or before.
abbrev pub IsOrdered : ℕ → World → Type 0
IsOrdered gen w = All (λ t. t.0 ≤ gen) w.timers

-- An event numbers at most one new switch, and keeps the order.
abbrev Numbers : World → World → Type 0
Numbers w w' =
    (w.store.gen ≤ w'.store.gen) × (w'.store.gen ≤ w.store.gen + 1) × IsOrdered w'.store.gen w'

ordered_up : (n m : ℕ) (ts : List Timer) → n ≤ m → All (λ t. t.0 ≤ n) ts → All (λ t. t.0 ≤ m) ts
ordered_up n m [] le h = h
ordered_up n m (t ∷ ts) le h = (omega (arith, h.0), ordered_up n m ts le h.1)

same-Numbers : (w w' : World) → Queue.SameQueue w w' → IsOrdered w.store.gen w → Numbers w w'
same-Numbers w w' (ts, gen, timer, pending) h =
    (omega (arith, gen), omega (arith, gen), rw (ts, gen) h)

apply_pending-Numbers :
    (c : Config) (e : Env) (sw : Switch) (gen : ℕ) (w : World)
    → IsOrdered w.store.gen w
    → Numbers w (apply_pending c e sw gen w).0
apply_pending-Numbers c e sw gen w h =
    let frame = Queue.apply_pending-frame c e sw gen w in
    (omega (arith, frame.1), omega (arith, frame.1), rw (frame.0, frame.1) h)

schedule-Numbers :
    (c : Config) (e : Env) (sw : Switch) (w : World)
    → w.store.gen + 1 < gen_modulus
    → IsOrdered w.store.gen w
    → Numbers w (schedule c e sw w).0
unfolding schedule
schedule-Numbers c e sw w fits h = elim (Bool-cases (c.switch_delay == 0)) [
  | inl inline ↦ rw (schedule, inline) (apply_pending-Numbers c e sw w.store.gen w h)
  | inr held ↦
      let gen = next_gen w.store.gen in
      rw (schedule, held)
        (
          omega arith,
          omega arith,
          (
            omega arith,
            ordered_up w.store.gen gen (stop w.store.timer e w.timers) (omega arith)
                (Queue.stop-All (λ t. t.0 ≤ w.store.gen) w.store.timer e w.timers h),
          ),
        )
]

refused-Numbers :
    (b : Bool) (w : World) (f : Option Failure) (o : Outcome)
    → IsOrdered w.store.gen w
    → Numbers w o.0
    → Numbers w (if b then (w, f, []) else o).0 × Numbers w (if b then o else (w, f, [])).0
refused-Numbers true w f o h n = ((omega arith, omega arith, h), n)
refused-Numbers false w f o h n = (n, (omega arith, omega arith, h))

request-Numbers :
    (c : Config) (e : Env) (r : Request) (w : World)
    → w.store.gen + 1 < gen_modulus
    → IsOrdered w.store.gen w
    → Numbers w (request c e r w).0
unfolding request set set_station set_voicing
request-Numbers c e (to_bed radio) w fits h =
    let sw = switch_to radio (tuned c w.store.station) w.store.voicing in
    (refused-Numbers _ w (some no_station) (schedule c e sw w) h
      (schedule-Numbers c e sw w fits h)).0
request-Numbers c e (to_bed carhum) w fits h =
    schedule-Numbers c e (switch_to carhum w.store.station w.store.voicing) w fits h
request-Numbers c e (to_bed album) w fits h = (omega arith, omega arith, h)
request-Numbers c e (to_station station) w fits h =
    let sw = switch_to radio station w.store.voicing in
    (refused-Numbers _ w (some unknown_station) (schedule c e sw w) h
      (schedule-Numbers c e sw w fits h)).1
request-Numbers c e (to_voicing voicing) w fits h =
    let sw = switch_to carhum w.store.station voicing in
    (refused-Numbers _ w (some unknown_voicing) (schedule c e sw w) h
      (schedule-Numbers c e sw w fits h)).1

land-Numbers :
    (c : Config) (e : Env) (w : World) (p : Option Switch)
    → w.store.gen + 1 < gen_modulus
    → IsOrdered w.store.gen w
    → Numbers w (land c e w p).0
land-Numbers c e w none fits h = (omega arith, omega arith, h)
land-Numbers c e w (some sw) fits h =
    let gen = next_gen w.store.gen in
    let timers = stop w.store.timer e w.timers in
    let w' = record w { store = record w.store { gen = gen }; timers = timers } in
    let n = apply_pending-Numbers c e sw gen w' (
      ordered_up w.store.gen gen timers (omega arith)
        (Queue.stop-All (λ t. t.0 ≤ w.store.gen) w.store.timer e w.timers h)) in
    let frame = Queue.apply_pending-frame c e sw gen w' in
    (omega (arith, frame.1), omega (arith, frame.1), n.2)

callback-Numbers :
    (c : Config) (e : Env) (w : World) (t : Option Timer)
    → IsOrdered w.store.gen w
    → Numbers w (callback c e w t).0
callback-Numbers c e w none h = (omega arith, omega arith, h)
callback-Numbers c e w (some (gen, sw)) h =
    (refused-Numbers _ w none (apply_pending c e sw gen w) h
      (apply_pending-Numbers c e sw gen w h)).1

pub step-Numbers :
    (c : Config) (ev : Event) (w : World)
    → w.store.gen + 1 < gen_modulus
    → IsOrdered w.store.gen w
    → Numbers w (step c ev w).0
unfolding step apply_now fire
step-Numbers c (asks e r) w fits h = request-Numbers c e r w fits h
step-Numbers c (lands_now e) w fits h = land-Numbers c e w w.store.pending fits h
step-Numbers c (timer_runs e i) w fits h =
    callback-Numbers c e (record w { timers = without_timer w.timers i }) (timer_at w.timers i)
      (Queue.without_timer-All (λ t. t.0 ≤ w.store.gen) w.timers i h)
step-Numbers c ev w fits h = same-Numbers w (step c ev w).0 (step-SameQueue c ev w (ground arith)) h

pub run-Numbers :
    (c : Config) (evs : List Event) (w : World)
    → w.store.gen + length evs < gen_modulus
    → IsOrdered w.store.gen w
    → ((run c evs w).store.gen ≤ w.store.gen + length evs)
      × IsOrdered (run c evs w).store.gen (run c evs w)
unfolding run
run-Numbers c [] w fits h = (omega arith, h)
run-Numbers c (ev ∷ evs) w fits h =
    let n = step-Numbers c ev w (omega arith) h in
    let rest = run-Numbers c evs (step c ev w).0 (omega (arith, n.1)) n.2 in
    (omega (arith, rest.0, n.1), rest.1)
