-- ===== src/Beds/Repeats.antt =====
-- Store: the album never plays a track twice in a row.
use tripbot.Base.{
  ℕ, zero, suc, ◌+◌, ◌-◌, ◌%◌, ◌≤◌, ◌<◌, ◌≡◌, refl, inl, inr, true, false, not, ◌&&◌, ◌||◌, List,
  [], ◌∷◌, count, length, Text, same_text, same_text_self, same_text_other, same_text_eq,
  if◌then◌else◌, arith, Bool-cases, sym, subst, ltb, ◌==◌, ==_iff,
}
use tripbot.Clock.{since}
use tripbot.Beds.Library.{track_at, swap_first, reshuffle_avoiding}
use tripbot.Beds.Store.{
  album, Store, World, Config, Env, Call, local, overlay, send, playing, track_on_air,
}
use tripbot.Beds.Fallback.{next_track, advance, is_album}
use tripbot.Beds.Sound.{Permutes}

-- No track stands twice in a play order.
abbrev pub HasNoRepeats : List Text → Type 0
HasNoRepeats ts = (t : Text) → count (same_text t) ts ≤ 1

count_at :
    (t : Text) (ts : List Text) (j : ℕ)
    → j < length ts
    → same_text t (track_at ts j) ≡ true
    → 0 < count (same_text t) ts
count_at t [] j lt h = absurd (omega arith)
count_at t (u ∷ ts) zero lt h = ground (arith, h)
count_at t (u ∷ ts) (suc j) lt h = ground (arith, count_at t ts j (omega arith) h)

-- Two places of such an order hold different tracks.
places_differ :
    (ts : List Text) (i j : ℕ)
    → count (same_text (track_at ts i)) ts ≤ 1
    → i < j
    → j < length ts
    → same_text (track_at ts i) (track_at ts j) ≡ false
places_differ [] i j once lt in' = absurd (omega arith)
places_differ (t ∷ ts) i zero once lt in' = absurd (omega arith)
places_differ (t ∷ ts) zero (suc j) once lt in' = elim (Bool-cases (same_text t (track_at ts j))) [
  | inr other ↦ other
  | inl same ↦ absurd (ground (arith, same_text_self t, count_at t ts j (omega arith) same, once))
]
places_differ (t ∷ ts) (suc i) (suc j) once lt in' =
    places_differ ts i j (ground (arith, once)) (omega arith) (omega arith)

head_swapped :
    (j : ℕ) (ts : List Text)
    → 0 < length ts
    → track_at (swap_first (suc j) ts) 0 ≡ track_at ts (suc j)
head_swapped j [] h = absurd (omega arith)
head_swapped j (t ∷ ts) h = refl

reshuffled_differs :
    (f : List Text → List Text) (draw : ℕ → ℕ) (ts : List Text) (avoid : Text)
    → Permutes f
    → ((n : ℕ) → 0 < n → draw n < n)
    → HasNoRepeats ts
    → 1 < length ts
    → same_text (track_at (reshuffle_avoiding f draw ts avoid) 0) avoid ≡ false
unfolding reshuffle_avoiding
reshuffled_differs f draw ts avoid perm drawn once many =
    let order = f ts in
    let d = draw (length order - 1) in
    let in_range : d < length order - 1 =
      drawn (length order - 1) (omega (arith, perm.same_length ts)) in
    elim (Bool-cases (same_text (track_at order 0) avoid)) [
      | inl same ↦
          let first = track_at order 0 in
          let apart =
            places_differ order 0 (suc d) (omega (arith, perm.same_count first ts, once first))
              (omega arith) (omega (arith, in_range)) in
          let swaps : (ltb 1 (length order) && same_text first avoid) ≡ true =
            ground (arith, same, many, perm.same_length ts) in
          rw (reshuffle_avoiding, swaps, head_swapped d order (omega (arith, in_range)))
            (subst (λ t. same_text (track_at order (suc d)) t ≡ false)
              (same_text_eq first avoid same)
              (same_text_other first (track_at order (suc d)) apart))
      | inr other ↦
          let keeps : (ltb 1 (length order) && same_text (track_at order 0) avoid) ≡ false =
            ground (arith, other) in
          rw (reshuffle_avoiding, keeps) other
    ]

sent :
    (call : Call) (e : Env) (w : World)
    → ((send call e w).2 ≡ call ∷ [])
      × ((send call e w).0.store ≡ w.store)
      × ((send call e w).0.source ≡ (if e.accepts then overlay call w.source else w.source))
unfolding send
sent call e w = ground arith

next_track_differs :
    (e : Env) (s : Store)
    → Permutes e.shuffle
    → ((n : ℕ) → 0 < n → e.draw n < n)
    → HasNoRepeats s.tracks
    → 1 < length s.tracks
    → s.idx < length s.tracks
    → same_text (track_at (next_track e s).tracks (next_track e s).idx) (track_at s.tracks s.idx)
      ≡ false
unfolding next_track
next_track_differs e s perm drawn once many in' =
    let i = (s.idx + 1) % length s.tracks in
    let current = track_at s.tracks s.idx in
    elim (Bool-cases (i == 0)) [
      | inl wraps ↦
          rw (next_track, wraps, (==_iff i 0).0 wraps)
            (reshuffled_differs e.shuffle e.draw s.tracks current perm drawn once many)
      | inr goes_on ↦
          let next : i ≡ s.idx + 1 = grind arith in
          let below : i < length s.tracks = grind arith in
          rw (next_track, goes_on, next)
            (same_text_other current (track_at s.tracks (s.idx + 1)) (
              places_differ s.tracks s.idx (s.idx + 1) (once current) (omega arith)
                (omega (arith, next, below))))
    ]

-- When the album is on air and its track did not start just now, an advance asks OBS for exactly the
-- track that the store then holds to be on air, unlooped, and it is another one than before, also
-- where the play order wraps and is shuffled anew. If OBS refuses, the source keeps the
-- former one, and the store holds the new one all the same. The order has two tracks or more, none of them
-- twice, the shuffle permutes, and `rand.IntN` stays in range.
pub advance_changes_track :
    (c : Config) (e : Env) (w : World)
    → playing w.store ≡ album
    → ltb (since w.store.last_start e.now) c.advance_debounce ≡ false
    → Permutes e.shuffle
    → ((n : ℕ) → 0 < n → e.draw n < n)
    → HasNoRepeats w.store.tracks
    → 1 < length w.store.tracks
    → w.store.idx < length w.store.tracks
    → let o = advance c e w in
      (o.2 ≡ local (track_on_air o.0.store album) false ∷ [])
      × (same_text (track_on_air o.0.store album) (track_on_air w.store album) ≡ false)
      × (o.0.source ≡ (
          if e.accepts
          then overlay (local (track_on_air o.0.store album) false) w.source
          else w.source))
unfolding advance track_on_air
advance_changes_track c e w on_album late perm drawn once many in' =
    let s = next_track e w.store in
    let differs = next_track_differs e w.store perm drawn once many in' in
    let goes : (not (is_album (playing w.store))
          || ltb (since w.store.last_start e.now) c.advance_debounce)
        ≡ false =
      ground (arith, on_album, late) in
    let some_left : (length w.store.tracks == 0) ≡ false = ground (arith, many) in
    let o = send (local (track_at s.tracks s.idx) false) e (record w { store = s }) in
    let (calls, store, source) =
      sent (local (track_at s.tracks s.idx) false) e (record w { store = s }) in
    let current = track_at w.store.tracks w.store.idx in
    rw (advance, goes, some_left)
      (
        subst (λ (t : Store). o.2 ≡ local (track_at t.tracks t.idx) false ∷ []) (sym store) calls,
        subst (λ (t : Store). same_text (track_at t.tracks t.idx) current ≡ false) (sym store)
            differs,
        subst
            (λ (t : Store). o.0.source ≡ (
              if e.accepts
              then overlay (local (track_at t.tracks t.idx) false) w.source
              else w.source))
            (sym store) source,
      )
