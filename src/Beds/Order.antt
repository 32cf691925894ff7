-- ===== src/Beds/Order.antt =====
-- The album's play order: what a shuffle and a reshuffle keep.
use tripbot.Base.{
  ℕ, zero, suc, ◌-◌, ◌<◌, ◌≡◌, refl, inl, inr, Bool, true, false, List, [], ◌∷◌, All, count, length,
  Text, same_text, same_text_self, same_text_eq, arith, Bool-cases, subst, ltb, ◌&&◌, sym,
}
use tripbot.Beds.Library.{track_at, set_track, swap_first, reshuffle_avoiding}
use tripbot.Beds.Sound.{Permutes}

count_pos :
    (P : Text → Type 0) (t : Text) (ts : List Text) → All P ts → 0 < count (same_text t) ts → P t
count_pos P t [] h pos = absurd (omega arith)
count_pos P t (u ∷ ts) h pos = elim (Bool-cases (same_text t u)) [
  | inl same ↦ subst P (sym (same_text_eq t u same)) h.0
  | inr other ↦ count_pos P t ts h.1 (ground (arith, other))
]

count_self : (t : Text) (ts : List Text) → 0 < count (same_text t) (t ∷ ts)
count_self t ts = ground (arith, same_text_self t)

-- A property of all the texts of which a list has some.
All_counted :
    (P : Text → Type 0) (ts : List Text)
    → ((t : Text) → 0 < count (same_text t) ts → P t)
    → All P ts
All_counted P [] h = tt
All_counted P (u ∷ ts) h = (h u (count_self u ts), All_counted P ts (λ t pos. h t (ground arith)))

pub All-shuffle :
    (P : Text → Type 0) (f : List Text → List Text) (ts : List Text)
    → Permutes f
    → All P ts
    → All P (f ts)
All-shuffle P f ts perm h =
    All_counted P (f ts) (λ t pos. count_pos P t ts h (omega (arith, perm.same_count t ts)))

pub All-track_at :
    (P : Text → Type 0) (ts : List Text) (i : ℕ) → i < length ts → All P ts → P (track_at ts i)
All-track_at P [] i lt h = absurd (omega arith)
All-track_at P (t ∷ ts) zero lt h = h.0
All-track_at P (t ∷ ts) (suc i) lt h = All-track_at P ts i (omega arith) h.1

pub All-track_named :
    (P : Text → Type 0) (ts : List Text) (i : ℕ)
    → same_text (track_at ts i) [] ≡ false
    → All P ts
    → P (track_at ts i)
All-track_named P [] i named h = ground arith
All-track_named P (t ∷ ts) zero named h = h.0
All-track_named P (t ∷ ts) (suc i) named h = All-track_named P ts i named h.1

All-set_track :
    (P : Text → Type 0) (ts : List Text) (i : ℕ) (v : Text)
    → P v
    → All P ts
    → All P (set_track ts i v)
All-set_track P [] i v pv h = tt
All-set_track P (t ∷ ts) zero v pv h = (pv, h.1)
All-set_track P (t ∷ ts) (suc i) v pv h = (h.0, All-set_track P ts i v pv h.1)

length-set_track : (ts : List Text) (i : ℕ) (v : Text) → length (set_track ts i v) ≡ length ts
length-set_track [] i v = refl
length-set_track (t ∷ ts) zero v = refl
length-set_track (t ∷ ts) (suc i) v = omega (arith, length-set_track ts i v)

pub length-swap_first : (j : ℕ) (ts : List Text) → length (swap_first j ts) ≡ length ts
length-swap_first zero ts = refl
length-swap_first (suc j) [] = refl
length-swap_first (suc j) (t ∷ ts) = omega (arith, length-set_track ts j t)

All-swap_first :
    (P : Text → Type 0) (j : ℕ) (ts : List Text)
    → j < length ts
    → All P ts
    → All P (swap_first j ts)
All-swap_first P zero ts lt h = h
All-swap_first P (suc j) [] lt h = absurd (omega arith)
All-swap_first P (suc j) (t ∷ ts) lt h =
    (All-track_at P ts j (omega arith) h.1, All-set_track P ts j t h.0 h.1)

pub length-reshuffle_avoiding :
    (f : List Text → List Text) (draw : ℕ → ℕ) (ts : List Text) (avoid : Text)
    → Permutes f
    → length (reshuffle_avoiding f draw ts avoid) ≡ length ts
unfolding reshuffle_avoiding
length-reshuffle_avoiding f draw ts avoid perm =
    ground (arith, length-swap_first (suc (draw (length (f ts) - 1))) (f ts), perm.same_length ts)

drawn_in_range :
    (draw : ℕ → ℕ) (ts : List Text) (b : Bool)
    → ((n : ℕ) → 0 < n → draw n < n)
    → (ltb 1 (length ts) && b) ≡ true
    → suc (draw (length ts - 1)) < length ts
drawn_in_range draw ts b drawn h =
    let many : 1 < length ts = ground (arith, h) in
    omega (arith, drawn (length ts - 1) (omega arith))

pub All-reshuffle_avoiding :
    (P : Text → Type 0) (f : List Text → List Text) (draw : ℕ → ℕ) (ts : List Text) (avoid : Text)
    → Permutes f
    → ((n : ℕ) → 0 < n → draw n < n)
    → All P ts
    → All P (reshuffle_avoiding f draw ts avoid)
unfolding reshuffle_avoiding
All-reshuffle_avoiding P f draw ts avoid perm drawn h =
    let swaps = ltb 1 (length (f ts)) && same_text (track_at (f ts) 0) avoid in
    let shuffled = All-shuffle P f ts perm h in
    elim (Bool-cases swaps) [
      | inl swap ↦
          rw (reshuffle_avoiding, swap)
            (All-swap_first P (suc (draw (length (f ts) - 1))) (f ts)
              (drawn_in_range draw (f ts) _ drawn swap) shuffled)
      | inr keep ↦ rw (reshuffle_avoiding, keep) shuffled
    ]
