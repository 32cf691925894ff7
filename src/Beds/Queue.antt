-- ===== src/Beds/Queue.antt =====
-- Store: what a switch and the other events do to the waiting switch and its callbacks.
use tripbot.Base.{
  ℕ, zero, suc, ◌+◌, ◌≤◌, ◌≡◌, inl, inr, Bool, Option, none, some, List, [], ◌∷◌, All, count, Text,
  ◌==◌, if◌then◌else◌, arith, Bool-cases, subst,
}
use tripbot.Beds.Store.{
  Bed, radio, carhum, album, Switch, Timer, World, Config, Env, Call, track, send, apply, set_now,
  begin_pending, apply_pending,
}
use tripbot.Beds.Requests.{stop, timer_at, without_timer, without}
use tripbot.Beds.Fallback.{advance, swap_to_fallback, swap_to_radio, detect}

pub apply-frame :
    (c : Config) (e : Env) (bed : Bed) (file station : Text) (w : World)
    → ((apply c e bed file station w).0.timers ≡ w.timers)
      × ((apply c e bed file station w).0.store ≡ w.store)
unfolding apply
apply-frame c e radio file station w = ground arith
apply-frame c e carhum file station w = ground arith
apply-frame c e album file station w = ground arith

pub set_now-frame :
    (c : Config) (e : Env) (bed : Bed) (w : World)
    → let w' = (set_now c e bed w).0 in
      (w'.timers ≡ w.timers)
      × (w'.store.gen ≡ w.store.gen)
      × (w'.store.timer ≡ w.store.timer)
      × (w'.store.pending ≡ w.store.pending)
unfolding set_now
set_now-frame c e bed w = ground (arith, apply-frame c e bed (track w.store bed) w.store.station w)

pub apply_pending-frame :
    (c : Config) (e : Env) (sw : Switch) (gen : ℕ) (w : World)
    → let w' = (apply_pending c e sw gen w).0 in
      (w'.timers ≡ w.timers)
      × (w'.store.gen ≡ w.store.gen)
      × (w'.store.pending ≡ (if w.store.gen == gen then none else w.store.pending))
unfolding apply_pending
apply_pending-frame c e sw gen w = ground (arith, set_now-frame c e sw.bed (begin_pending sw w))

pub without-All :
    (P : Timer → Type 0) (gen : ℕ) (ts : List Timer) → All P ts → All P (without gen ts)
without-All P gen [] h = h
without-All P gen ((g, sw) ∷ ts) h = elim (Bool-cases (g == gen)) [
  | inl same ↦ rw (without, same) (without-All P gen ts h.1)
  | inr other ↦ rw (without, other) (h.0, without-All P gen ts h.1)
]

pub stop-All :
    (P : Timer → Type 0) (o : Option ℕ) (e : Env) (ts : List Timer) → All P ts → All P (stop o e ts)
unfolding stop
stop-All P none e ts h = h
stop-All P (some gen) e ts h = elim (Bool-cases e.stops) [
  | inl yes' ↦ rw (stop, yes') (without-All P gen ts h)
  | inr no' ↦ rw (stop, no') h
]

pub without_timer-All :
    (P : Timer → Type 0) (ts : List Timer) (i : ℕ) → All P ts → All P (without_timer ts i)
without_timer-All P [] i h = h
without_timer-All P (t ∷ ts) zero h = h.1
without_timer-All P (t ∷ ts) (suc i) h = (h.0, without_timer-All P ts i h.1)

pub timer_at-All :
    (P : Timer → Type 0) (ts : List Timer) (i : ℕ) (t : Timer)
    → All P ts
    → timer_at ts i ≡ some t
    → P t
timer_at-All P [] i t h e = ground arith
timer_at-All P (u ∷ ts) zero t h e = subst P (cc) h.0
timer_at-All P (u ∷ ts) (suc i) t h e = timer_at-All P ts i t h.1 e

pub timer_at-count :
    (p : Timer → Bool) (ts : List Timer) (i : ℕ) (t : Timer)
    → timer_at ts i ≡ some t
    → count p ts ≡ (if p t then 1 else 0) + count p (without_timer ts i)
timer_at-count p [] i t e = ground arith
timer_at-count p (u ∷ ts) zero t e = ground (arith, e)
timer_at-count p (u ∷ ts) (suc i) t e = ground (arith, timer_at-count p ts i t e)

pub without_timer-count :
    (p : Timer → Bool) (ts : List Timer) (i : ℕ) → count p (without_timer ts i) ≤ count p ts
without_timer-count p [] i = omega arith
without_timer-count p (t ∷ ts) zero = omega arith
without_timer-count p (t ∷ ts) (suc i) = omega (arith, without_timer-count p ts i)

-- What the other events leave alone.
abbrev pub SameQueue : World → World → Type 0
SameQueue w w' =
    (w'.timers ≡ w.timers)
    × (w'.store.gen ≡ w.store.gen)
    × (w'.store.timer ≡ w.store.timer)
    × (w'.store.pending ≡ w.store.pending)

pub send-SameQueue : (call : Call) (e : Env) (w : World) → SameQueue w (send call e w).0
unfolding send
send-SameQueue call e w = ground arith

pub advance-SameQueue : (c : Config) (e : Env) (w : World) → SameQueue w (advance c e w).0
unfolding advance
advance-SameQueue c e w = ground arith

pub swap_to_fallback-SameQueue : (e : Env) (w : World) → SameQueue w (swap_to_fallback e w).0
unfolding swap_to_fallback
swap_to_fallback-SameQueue e w = ground arith

pub swap_to_radio-SameQueue :
    (c : Config) (e : Env) (w : World) → SameQueue w (swap_to_radio c e w).0
unfolding swap_to_radio
swap_to_radio-SameQueue c e w = ground arith

pub detect-SameQueue : (c : Config) (e : Env) (w : World) → SameQueue w (detect c e w)
unfolding detect
detect-SameQueue c e w = ground arith
