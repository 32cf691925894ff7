-- ===== src/Beds/Steps.antt =====
-- Store: what each event does to a waiting switch.
use tripbot.Base.{
  ◌+◌, ◌≤◌, ◌<◌, ◌≡◌, refl, inl, inr, true, false, List, [], ◌∷◌, All, All-append, length,
  length-append, if◌then◌else◌, arith,
}
use tripbot.Beds.Store.{valid, Switch, World, Config, Call}
use tripbot.Beds.Requests.{gen_modulus, apply_now}
use tripbot.Beds.Events.{
  Event, asks, lands_now, timer_runs, track_ends, falls_back, comes_back, reads_back, obs_restarts,
  step, is_request, lands, switch_calls,
}
use tripbot.Beds.Queue
use tripbot.Beds.Waiting.{Waits, Kept, call_of, AtMost, left, land-Kept, fire-Kept}

abbrev calls_of : Config → Event → World → List Call
calls_of c ev w = if lands ev then (step c ev w).2 else []

-- After one event that requests nothing.
record Stepped (c : Config) (sw : Switch) (ev : Event) (w : World) : Type 0 where
  kept : Waits sw (step c ev w).0.store.gen (step c ev w).0.store.pending (step c ev w).0.timers
  gen_le : (step c ev w).0.store.gen ≤ w.store.gen + 1
  spent : length (calls_of c ev w) + left (step c ev w).0.store.pending ≤ left w.store.pending
  right : AtMost (call_of c sw) (calls_of c ev w)

frame_kept :
    (sw : Switch) (w w' : World)
    → Queue.SameQueue w w'
    → Waits sw w.store.gen w.store.pending w.timers
    → Waits sw w'.store.gen w'.store.pending w'.timers
frame_kept sw w w' (ts, gen, timer, pending) waits = rw (ts, gen, pending) waits

quiet_step :
    (c : Config) (sw : Switch) (ev : Event) (w : World)
    → lands ev ≡ false
    → Queue.SameQueue w (step c ev w).0
    → Waits sw w.store.gen w.store.pending w.timers
    → Stepped c sw ev w
quiet_step c sw ev w quiet same waits = record {
  kept = frame_kept sw w (step c ev w).0 same waits;
  gen_le = omega (arith, same.1);
  spent = rw (quiet, same.3) (omega arith);
  right = rw quiet (inl refl);
}

busy_step :
    (c : Config) (sw : Switch) (ev : Event) (w : World)
    → lands ev ≡ true
    → Kept c sw w.store.pending (step c ev w)
    → (step c ev w).0.store.gen ≤ w.store.gen + 1
    → Stepped c sw ev w
busy_step c sw ev w busy kept gen = record {
  kept = kept.waits;
  gen_le = gen;
  spent = rw busy kept.spent;
  right = rw busy kept.right;
}

pub step-SameQueue :
    (c : Config) (ev : Event) (w : World) → lands ev ≡ false → Queue.SameQueue w (step c ev w).0
unfolding step
step-SameQueue c (asks e r) w h = ground arith
step-SameQueue c (lands_now e) w h = ground arith
step-SameQueue c (timer_runs e i) w h = ground arith
step-SameQueue c (track_ends e) w h = Queue.advance-SameQueue c e w
step-SameQueue c (falls_back e) w h = ground (arith, Queue.swap_to_fallback-SameQueue e w)
step-SameQueue c (comes_back e) w h = ground (arith, Queue.swap_to_radio-SameQueue c e w)
step-SameQueue c (reads_back e) w h = Queue.detect-SameQueue c e w
step-SameQueue c (obs_restarts src) w h = ground arith

step-Stepped :
    (c : Config) (sw : Switch) (ev : Event) (w : World)
    → valid sw.bed ≡ true
    → is_request ev ≡ false
    → w.store.gen + 1 < gen_modulus
    → Waits sw w.store.gen w.store.pending w.timers
    → Stepped c sw ev w
unfolding apply_now
step-Stepped c sw (asks e r) w v h fits waits = ground arith
step-Stepped c sw (lands_now e) w v h fits waits =
    let kept = land-Kept c e sw w w.store.pending v fits refl waits in
    busy_step c sw (lands_now e) w refl (unfold step in kept.0) (unfold step in kept.1)
step-Stepped c sw (timer_runs e i) w v h fits waits =
    let kept = fire-Kept c e i sw w v waits in
    busy_step c sw (timer_runs e i) w refl (unfold step in kept.0)
      (unfold step in omega (arith, kept.1))
step-Stepped c sw ev w v h fits waits =
    quiet_step c sw ev w (ground arith) (step-SameQueue c ev w (ground arith)) waits

AtMost-All : (call : Call) (calls : List Call) → AtMost call calls → All (λ d. d ≡ call) calls
AtMost-All call calls (inl e) = rw e tt
AtMost-All call calls (inr e) = rw e (refl, tt)

pub waits-run :
    (c : Config) (sw : Switch) (evs : List Event) (w : World)
    → valid sw.bed ≡ true
    → All (λ ev. is_request ev ≡ false) evs
    → w.store.gen + length evs < gen_modulus
    → Waits sw w.store.gen w.store.pending w.timers
    → (length (switch_calls c evs w) ≤ left w.store.pending)
      × All (λ call. call ≡ call_of c sw) (switch_calls c evs w)
unfolding switch_calls
waits-run c sw [] w v h fits waits = ground arith
waits-run c sw (ev ∷ evs) w v h fits waits =
    let one = step-Stepped c sw ev w v h.0 (omega arith) waits in
    let rest = waits-run c sw evs (step c ev w).0 v h.1 (omega (arith, one.gen_le)) one.kept in
    (
      omega (
        arith,
        length-append (calls_of c ev w) (switch_calls c evs (step c ev w).0),
        one.spent,
        rest.0,
      ),
      All-append (λ call. call ≡ call_of c sw) (calls_of c ev w)
          (switch_calls c evs (step c ev w).0)
          (AtMost-All (call_of c sw) (calls_of c ev w) one.right) rest.1,
    )
