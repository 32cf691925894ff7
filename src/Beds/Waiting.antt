-- ===== src/Beds/Waiting.antt =====
-- Store: the one switch that a request leaves waiting, and that it lands at most once.
use tripbot.Base.{
  ℕ, ◌+◌, ◌≤◌, ◌<◌, ◌≡◌, refl, ◌⊎◌, inl, inr, true, false, Option, none, some, List, [], ◌∷◌, All,
  count, length, Text, ◌==◌, ==_iff, if◌then◌else◌, arith, Bool-cases, sym, subst,
}
use tripbot.Beds.Paths.{car_hum_file}
use tripbot.Beds.Stations.{stream_url}
use tripbot.Beds.Store.{
  Bed, radio, carhum, album, valid, Switch, Store, Timer, World, Config, Env, Call, network, local,
  track, Outcome, apply, set_now, begin_pending, apply_pending,
}
use tripbot.Beds.Requests.{
  gen_modulus, next_gen, stop, fire, timer_at, without_timer, land, callback,
}
use tripbot.Beds.Queue.{
  apply_pending-frame, stop-All, without_timer-All, timer_at-All, timer_at-count,
  without_timer-count,
}

-- The call that puts a switch on air.
abbrev pub call_for : Config → Bed → Text → Text → Call
call_for c radio station voicing = network (stream_url c.stations station)
call_for c carhum station voicing = local (car_hum_file voicing) true
call_for c album station voicing = local [] false

abbrev pub call_of : Config → Switch → Call
call_of c sw = call_for c sw.bed sw.station sw.voicing

-- At most this one call.
abbrev pub AtMost : Call → List Call → Type 0
AtMost call calls = (calls ≡ []) ⊎ (calls ≡ call ∷ [])

apply-AtMost :
    (c : Config) (e : Env) (bed : Bed) (station voicing : Text) (s : Store) (w : World)
    → valid bed ≡ true
    → AtMost
        (call_for c bed station voicing)
        (apply c e bed (track (record s { voicing = voicing }) bed) station w).2
unfolding apply valid
apply-AtMost c e radio station voicing s w v = ground arith
apply-AtMost c e carhum station voicing s w v = ground arith
apply-AtMost c e album station voicing s w v = ground arith

set_now-AtMost :
    (c : Config) (e : Env) (bed : Bed) (w : World)
    → valid bed ≡ true
    → AtMost (call_for c bed w.store.station w.store.voicing) (set_now c e bed w).2
unfolding set_now
set_now-AtMost c e bed w v =
    ground (arith, apply-AtMost c e bed w.store.station w.store.voicing w.store w v)

abbrev pub left : Option Switch → ℕ
left none = 0
left (some sw) = 1

abbrev pub Carries : ℕ → Switch → Timer → Type 0
Carries gen sw t = (t.0 ≤ gen) × (t.0 ≡ gen → t.1 ≡ sw)

abbrev current : ℕ → Option Timer → ℕ
current gen none = 0
current gen (some t) = if t.0 == gen then 1 else 0

-- What is left of one request: its switch is the pending one or has landed, and only a callback
-- with the current gen can land it.
pub record Waits (sw : Switch) (gen : ℕ) (pending : Option Switch) (timers : List Timer)
    : Type 0 where
  pub held : (pending ≡ none) ⊎ (pending ≡ some sw)
  pub carried : All (Carries gen sw) timers
  pub once : count (λ t. t.0 == gen) timers ≤ left pending

-- What one event may do to a waiting switch.
pub record Kept (c : Config) (sw : Switch) (before : Option Switch) (o : Outcome) : Type 0 where
  pub waits : Waits sw o.0.store.gen o.0.store.pending o.0.timers
  pub spent : length o.2 + left o.0.store.pending ≤ left before
  pub right : AtMost (call_of c sw) o.2

apply_pending-AtMost :
    (c : Config) (e : Env) (sw : Switch) (gen : ℕ) (w : World)
    → valid sw.bed ≡ true
    → AtMost (call_of c sw) (apply_pending c e sw gen w).2
unfolding apply_pending
apply_pending-AtMost c e sw gen w v = set_now-AtMost c e sw.bed (begin_pending sw w) v

-- A larger gen than that of every callback.
pub raised :
    (sw : Switch) (gen gen' : ℕ) (ts : List Timer)
    → gen < gen'
    → All (λ t. t.0 ≤ gen) ts
    → All (Carries gen' sw) ts × (count (λ t. t.0 == gen') ts ≡ 0)
raised sw gen gen' [] lt h = ground arith
raised sw gen gen' (t ∷ ts) lt h =
    let ih = raised sw gen gen' ts lt h.1 in
    (((ground arith, λ e. absurd (ground arith)), ih.0), ground arith)

pub bounded :
    (sw : Switch) (gen : ℕ) (ts : List Timer) → All (Carries gen sw) ts → All (λ t. t.0 ≤ gen) ts
bounded sw gen [] h = ground arith
bounded sw gen (t ∷ ts) h = (h.0.0, bounded sw gen ts h.1)

-- A switch that lands uses up the request.
landed-Kept :
    (c : Config) (e : Env) (sw : Switch) (w : World)
    → valid sw.bed ≡ true
    → All (Carries w.store.gen sw) w.timers
    → count (λ t. t.0 == w.store.gen) w.timers ≡ 0
    → Kept c sw (some sw) (apply_pending c e sw w.store.gen w)
landed-Kept c e sw w v carried once =
    let frame = apply_pending-frame c e sw w.store.gen w in
    let gone : (apply_pending c e sw w.store.gen w).0.store.pending ≡ none =
      ground (arith, frame.2) in
    record {
      waits = record {
        held = inl gone;
        carried = rw (frame.0, frame.1) carried;
        once = rw (frame.0, frame.1) (omega (arith, once));
      };
      spent = ground (arith, gone, apply_pending-AtMost c e sw w.store.gen w v);
      right = apply_pending-AtMost c e sw w.store.gen w v;
    }

pub land-Kept :
    (c : Config) (e : Env) (sw : Switch) (w : World) (p : Option Switch)
    → valid sw.bed ≡ true
    → w.store.gen + 1 < gen_modulus
    → p ≡ w.store.pending
    → Waits sw w.store.gen p w.timers
    → Kept c sw p (land c e w p) × ((land c e w p).0.store.gen ≤ w.store.gen + 1)
land-Kept c e sw w none v fits same waits = (
  record { waits = rw (← same) waits; spent = rw (← same) (omega arith); right = inl refl },
  omega arith,
)
land-Kept c e sw w (some sw') v fits same waits =
    let w' = record w {
      store = record w.store { gen = next_gen w.store.gen };
      timers = stop w.store.timer e w.timers;
    } in
    let is_ours : sw' ≡ sw = ground (arith, waits.held) in
    let up = raised sw w.store.gen (next_gen w.store.gen) w'.timers (omega arith) (
      stop-All (λ t. t.0 ≤ w.store.gen) w.store.timer e w.timers
        (bounded sw w.store.gen w.timers waits.carried)) in
    rw is_ours (
      landed-Kept c e sw w' v up.0 up.1,
      omega (arith, (apply_pending-frame c e sw (next_gen w.store.gen) w').1),
    )

callback-Kept :
    (c : Config) (e : Env) (sw : Switch) (w : World) (t : Option Timer)
    → valid sw.bed ≡ true
    → ((u : Timer) → t ≡ some u → Carries w.store.gen sw u)
    → All (Carries w.store.gen sw) w.timers
    → (w.store.pending ≡ none) ⊎ (w.store.pending ≡ some sw)
    → count (λ u. u.0 == w.store.gen) w.timers + current w.store.gen t ≤ left w.store.pending
    → Kept c sw w.store.pending (callback c e w t) × ((callback c e w t).0.store.gen ≡ w.store.gen)
callback-Kept c e sw w none v mine carried held once = (
  record {
    waits = record { held = held; carried = carried; once = omega (arith, once) };
    spent = omega arith;
    right = inl refl;
  },
  refl,
)
callback-Kept c e sw w (some (gen, sw')) v mine carried held once =
    elim (Bool-cases (gen == w.store.gen)) [
      | inl same ↦
          let now : gen ≡ w.store.gen = (==_iff gen w.store.gen).0 same in
          let is_ours : sw' ≡ sw = (mine (gen, sw') refl).1 now in
          let full : w.store.pending ≡ some sw = ground (arith, once, held, same) in
          let landed = landed-Kept c e sw w v carried (ground (arith, once, full, same)) in
          rw (callback, same, now, is_ours)
            (
              subst (λ p. Kept c sw p (apply_pending c e sw w.store.gen w)) (sym full) landed,
              (apply_pending-frame c e sw w.store.gen w).1,
            )
      | inr stale ↦
          rw (callback, stale)
            (
              record {
                waits = record { held = held; carried = carried; once = omega (arith, once) };
                spent = omega arith;
                right = inl refl;
              },
              refl,
            )
    ]

current-count :
    (gen : ℕ) (ts : List Timer) (i : ℕ) (t : Option Timer) {n : ℕ}
    → timer_at ts i ≡ t
    → count (λ u. u.0 == gen) ts ≤ n
    → count (λ u. u.0 == gen) (without_timer ts i) + current gen t ≤ n
current-count gen ts i none e h = omega (arith, without_timer-count (λ u. u.0 == gen) ts i)
current-count gen ts i (some t) e h = omega (arith, timer_at-count (λ u. u.0 == gen) ts i t e)

pub fire-Kept :
    (c : Config) (e : Env) (i : ℕ) (sw : Switch) (w : World)
    → valid sw.bed ≡ true
    → Waits sw w.store.gen w.store.pending w.timers
    → Kept c sw w.store.pending (fire c e i w) × ((fire c e i w).0.store.gen ≡ w.store.gen)
unfolding fire
fire-Kept c e i sw w v waits =
    callback-Kept c e sw (record w { timers = without_timer w.timers i }) (timer_at w.timers i) v
      (λ u found. timer_at-All (Carries w.store.gen sw) w.timers i u waits.carried found)
      (without_timer-All (Carries w.store.gen sw) w.timers i waits.carried) waits.held
      (current-count w.store.gen w.timers i (timer_at w.timers i) refl waits.once)
