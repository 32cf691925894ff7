-- ===== src/Beds/Truth.antt =====
-- Store: every method keeps the store truthful about what is on air, whatever OBS answers.
use tripbot.Base.{
  ℕ, ◌≡◌, refl, inl, inr, Bool, true, false, Option, none, some, All, Text, ◌==◌, if◌then◌else◌,
  arith, Bool-cases, Option-cases, ◌∙◌,
}
use tripbot.Beds.Store.{
  Bed, radio, carhum, album, valid, Switch, Store, World, Config, Env, Failure, set_now,
  begin_pending, end_pending, apply_pending, clear_pending,
}
use tripbot.Beds.Queue
use tripbot.Beds.Sound.{heard, says_bed, InShare, IsSelectable, IsTruthful, IsApart}

-- Setting a selectable bed.
abbrev IsSwitched : Config → Bed → World → World → Type 0
IsSwitched c bed w w' =
    (w'.store.bed ≡ bed)
    × (w'.store.fallback ≡ none)
    × (w'.store.station ≡ w.store.station)
    × (w'.store.voicing ≡ w.store.voicing)
    × (w'.store.tracks ≡ w.store.tracks)
    × (says_bed c w.store bed ≡ heard c w'.source)

set_now-IsSwitched :
    (c : Config) (e : Env) (bed : Bed) (w : World)
    → IsApart c
    → valid bed ≡ true
    → (set_now c e bed w).1 ≡ none
    → IsSwitched c bed w (set_now c e bed w).0
unfolding set_now valid
set_now-IsSwitched c e radio w apart v ok = ground arith
set_now-IsSwitched c e carhum w apart v ok = ground (arith, apart.drones w.store.voicing)
set_now-IsSwitched c e album w apart v ok = ground arith

set_now-error :
    (c : Config) (e : Env) (bed : Bed) (w : World) (f : Failure)
    → (set_now c e bed w).1 ≡ some f
    → (set_now c e bed w).0 ≡ w
unfolding set_now
set_now-error c e radio w f no' = ground arith
set_now-error c e carhum w f no' = ground arith
set_now-error c e album w f no' = ground arith

-- The invariant's parts that the queue of switches does not touch.
abbrev pub SameSound : World → World → Type 0
SameSound w w' =
    (w'.store.bed ≡ w.store.bed)
    × (w'.store.fallback ≡ w.store.fallback)
    × (w'.store.station ≡ w.store.station)
    × (w'.store.voicing ≡ w.store.voicing)
    × (w'.store.tracks ≡ w.store.tracks)
    × (w'.source ≡ w.source)

pub same_sound :
    (c : Config) (w w' : World)
    → SameSound w w'
    → IsSelectable w'.store.pending
    → All (λ t. valid t.1.bed ≡ true) w'.timers
    → IsTruthful c w
    → IsTruthful c w'
same_sound c w w' (bed, fallback, station, voicing, tracks, source) waiting timers v = record {
  chosen = rw bed v.chosen;
  stands_in = rw (bed, fallback) v.stands_in;
  agrees = rw (bed, fallback, station, voicing, source) v.agrees;
  tracks = rw tracks v.tracks;
  waiting = waiting;
  timers = timers;
}

says_bed_same :
    (c : Config) (s s' : Store) (bed : Bed)
    → s'.station ≡ s.station
    → s'.voicing ≡ s.voicing
    → says_bed c s' bed ≡ says_bed c s bed
says_bed_same c s s' radio station voicing = rw station refl
says_bed_same c s s' carhum station voicing = rw voicing refl
says_bed_same c s s' album station voicing = refl

set_sound :
    (c : Config) (bed : Bed) (w w' : World)
    → valid bed ≡ true
    → IsSwitched c bed w w'
    → InShare c w.store.tracks
    → IsSelectable w'.store.pending
    → All (λ t. valid t.1.bed ≡ true) w'.timers
    → IsTruthful c w'
set_sound c bed w w' v (bed', fallback, station, voicing, tracks, agrees) shared waiting timers =
    record {
      chosen = rw bed' v;
      stands_in = rw fallback tt;
      agrees = rw (fallback, bed') (says_bed_same c w.store w'.store bed station voicing ∙ agrees);
      tracks = rw tracks shared;
      waiting = waiting;
      timers = timers;
    }

if_selectable :
    (b : Bool) (p : Option Switch) → IsSelectable p → IsSelectable (if b then none else p)
if_selectable true p h = tt
if_selectable false p h = h

ended-IsSwitched :
    (c : Config) (bed : Bed) (gen : ℕ) (station voicing : Text) (w w' : World)
    → IsSwitched c bed w w'
    → IsSwitched c bed w (end_pending gen station voicing none w')
unfolding end_pending
ended-IsSwitched c bed gen station voicing w w' set' = elim (Bool-cases (w'.store.gen == gen)) [
  | inl same ↦ rw (end_pending, clear_pending, same) set'
  | inr other ↦ rw (end_pending, clear_pending, other) set'
]

pub undone-SameSound :
    (sw : Switch) (gen : ℕ) (f : Failure) (w : World)
    → SameSound w (end_pending gen w.store.station w.store.voicing (some f) (begin_pending sw w))
unfolding end_pending begin_pending
undone-SameSound sw gen f w = ground arith

pub apply_pending-IsTruthful :
    (c : Config) (e : Env) (sw : Switch) (gen : ℕ) (w : World)
    → IsApart c
    → valid sw.bed ≡ true
    → IsTruthful c w
    → IsTruthful c (apply_pending c e sw gen w).0
unfolding apply_pending begin_pending
apply_pending-IsTruthful c e sw gen w apart v h =
    let w' = begin_pending sw w in
    let frame = Queue.apply_pending-frame c e sw gen w in
    let after = (apply_pending c e sw gen w).0 in
    let waiting : IsSelectable after.store.pending =
      rw frame.2 (if_selectable (w.store.gen == gen) w.store.pending h.waiting) in
    let timers : All (λ t. valid t.1.bed ≡ true) after.timers = rw frame.0 h.timers in
    elim (Option-cases (set_now c e sw.bed w').1) [
      | inl ok ↦
          set_sound c sw.bed w' after v
            (rw ok (
              ended-IsSwitched c sw.bed gen w.store.station w.store.voicing w'
                (set_now c e sw.bed w').0 (set_now-IsSwitched c e sw.bed w' apart v ok)))
            h.tracks waiting timers
      | inr (f, no') ↦
          same_sound c w after
            (rw (no', set_now-error c e sw.bed w' f no') (undone-SameSound sw gen f w)) waiting
            timers h
    ]
