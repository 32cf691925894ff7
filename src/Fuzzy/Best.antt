-- ===== src/Fuzzy/Best.antt =====
-- `fuzzyLookup` answers with the one nearest command, or not at all.
use native.Mathlib.Omega.{arith}
use tripbot.Base.{
  ℕ, ◌+◌, ◌≤◌, ◌<◌, ◌≡◌, refl, sym, ap, ◌∙◌, ◌⊎◌, inl, inr, ◌↔◌, Bool, true, false, Option, none,
  some, List, [], ◌∷◌, ◌==◌, length, All, if◌then◌else◌, lt_or_le,
}
use tripbot.Fuzzy.{Text, Entry, is_bang, levenshtein, fuzzy_max_distance, fuzzy_lookup}
use tripbot.Fuzzy.Order.{View, compare_view, view_consider, view_all, fuzzy_lookup-view}

-- A trigger with a bang, within the distance that the command's length allows.
abbrev IsEligible : Text → ℕ → Entry → Type 0
IsEligible command m (t, c) = (is_bang t ≡ true) × (levenshtein command t ≤ m)

-- An eligible trigger of command `c` at distance `d`.
abbrev Hits : Text → ℕ → ℕ → ℕ → Entry → Type 0
Hits command m d c (t, c') = IsEligible command m (t, c') × (levenshtein command t ≡ d) × (c' ≡ c)

-- An eligible trigger is farther than `d`, or as far and of command `c`.
abbrev Yields : Text → ℕ → ℕ → ℕ → Entry → Type 0
Yields command m d c (t, c') =
    IsEligible command m (t, c')
    → (d < levenshtein command t) ⊎ ((levenshtein command t ≡ d) × (c' ≡ c))

abbrev Some : (Entry → Type 0) → List Entry → Type 0
Some P [] = ⊥
Some P (e ∷ es) = P e ⊎ Some P es

-- Command `c` is alone in being nearest.
pub record IsBest (command : Text) (m : ℕ) (es : List Entry) (c d : ℕ) : Type 0 where
  pub hit : Some (Hits command m d c) es
  pub alone : All (Yields command m d c) es

module _ (command : Text) (m d c : ℕ) where
  step-Yields :
      (e : Entry) (v : View)
      → let w = view_consider command m e v in
        d ≤ w.0 → (w.0 ≡ d → w.1 ≡ some c) → Yields command m d c e
  unfolding view_consider compare_view
  step-Yields (t, c') (b, none) h k el = ground arith
  step-Yields (t, c') (b, some r) h k el = ground arith

  step_bound :
      (e : Entry) (v : View)
      → let w = view_consider command m e v in
        d ≤ w.0 → (w.0 ≡ d → w.1 ≡ some c) → (d ≤ v.0) × (v.0 ≡ d → v.1 ≡ some c)
  unfolding view_consider compare_view
  step_bound (t, c') (b, none) h k = (ground arith, λ e. ground arith)
  step_bound (t, c') (b, some r) h k = (ground arith, λ e. ground arith)

  step_hit :
      (e : Entry) (v : View)
      → view_consider command m e v ≡ (d, some c)
      → Hits command m d c e ⊎ (v ≡ (d, some c))
  unfolding view_consider compare_view
  step_hit (t, c') (b, none) h = ground arith
  step_hit (t, c') (b, some r) h = ground arith

  -- What the final view says of every entry.
  each_back :
      (es : List Entry) (v : View)
      → view_all command m es v ≡ (d, some c)
      → All (Yields command m d c) es
        × (d ≤ v.0)
        × (v.0 ≡ d → v.1 ≡ some c)
        × (Some (Hits command m d c) es ⊎ (v ≡ (d, some c)))
  unfolding view_all
  each_back [] v h = (tt, ground arith, λ e. ground arith, inr h)
  each_back (e ∷ es) v h =
      let (ys, bound, same, hit) = each_back es (view_consider command m e v) h in
      let (bound', same') = step_bound e v bound same in
      (
        (step-Yields e v bound same, ys),
        bound',
        same',
        elim hit [
          | inl later ↦ inl (inr later)
          | inr now ↦ elim (step_hit e v now) [
            | inl first ↦ inl (inl first)
            | inr start ↦ inr start
          ]
        ],
      )

  step_keeps :
      (e : Entry) → Yields command m d c e → view_consider command m e (d, some c) ≡ (d, some c)
  unfolding view_consider compare_view
  step_keeps (t, c') y = ground arith

  step_farther :
      (e : Entry) (v : View)
      → Yields command m d c e
      → d < v.0
      → (d < (view_consider command m e v).0) ⊎ (view_consider command m e v ≡ (d, some c))
  unfolding view_consider compare_view
  step_farther (t, c') (b, r) y h = ground arith

  step_takes :
      (e : Entry) (v : View)
      → Hits command m d c e
      → d < v.0
      → view_consider command m e v ≡ (d, some c)
  unfolding view_consider compare_view
  step_takes (t, c') (b, r) y h = ground arith

  each_keep :
      (es : List Entry)
      → All (Yields command m d c) es
      → view_all command m es (d, some c) ≡ (d, some c)
  unfolding view_all
  each_keep [] ys = refl
  each_keep (e ∷ es) ys = rw (step_keeps e ys.0) (each_keep es ys.1)

  each_found :
      (es : List Entry) (v : View)
      → All (Yields command m d c) es
      → Some (Hits command m d c) es
      → d < v.0
      → view_all command m es v ≡ (d, some c)
  unfolding view_all
  each_found [] v ys hit h = absurd hit
  each_found (e ∷ es) v ys (inl hit) h = rw (step_takes e v hit h) (each_keep es ys.1)
  each_found (e ∷ es) v ys (inr hit) h = elim (step_farther e v ys.0 h) [
    | inl far ↦ each_found es (view_consider command m e v) ys.1 hit far
    | inr now ↦ rw now (each_keep es ys.1)
  ]

  hit_within : (es : List Entry) → Some (Hits command m d c) es → d ≤ m
  hit_within [] h = absurd h
  hit_within ((t, c') ∷ es) (inl h) = ground arith
  hit_within (e ∷ es) (inr h) = hit_within es h

max_distance_zero : (n : ℕ) → n < 4 → (fuzzy_max_distance n == 0) ≡ true
unfolding fuzzy_max_distance
max_distance_zero n h = ground arith

max_distance_pos : (n : ℕ) → 4 ≤ n → (fuzzy_max_distance n == 0) ≡ false
unfolding fuzzy_max_distance
max_distance_pos n h = ground arith

gate : (b : Bool) (x : Option ℕ) {c : ℕ} → (if b then none else x) ≡ some c → x ≡ some c
gate true x h = cc
gate false x h = h

module _ (es : List Entry) (command : Text) (c : ℕ) where
  found : fuzzy_lookup es command ≡ some c → 4 ≤ length command
  found h = elim (lt_or_le (length command) 4) [
    | inl short ↦
        ground (arith, fuzzy_lookup-view es command, max_distance_zero (length command) short)
    | inr long ↦ long
  ]

  found-IsBest :
      fuzzy_lookup es command ≡ some c
      → (d : ℕ) × IsBest command (fuzzy_max_distance (length command)) es c d
  found-IsBest h =
      let m = fuzzy_max_distance (length command) in
      let w = view_all command m es (m + 1, none) in
      let at = gate (m == 0) w.1 (sym (fuzzy_lookup-view es command) ∙ h) in
      let (ys, bound, same, hit) = each_back command m w.0 c es (m + 1, none) (λ i. (w.0, at i)) in
      (
        w.0,
        record {
          hit = elim hit [
            | inl there ↦ there
            | inr start ↦ absurd (cc (ap (λ (v : View). v.1) start))
          ];
          alone = ys;
        },
      )

  best_found :
      (d : ℕ)
      → 4 ≤ length command
      → IsBest command (fuzzy_max_distance (length command)) es c d
      → fuzzy_lookup es command ≡ some c
  best_found d long b =
      let m = fuzzy_max_distance (length command) in
      let at =
        each_found command m d c es (m + 1, none) b.alone b.hit
          (omega (arith, hit_within command m d c es b.hit)) in
      fuzzy_lookup-view es command ∙ rw (max_distance_pos (length command) long, at)

-- `fuzzyLookup` answers with a command exactly when the input has at least four runes and the
-- command is alone in being nearest among the triggers that begin with a bang and lie within the
-- distance that the input's length allows.
pub fuzzy_lookup_iff :
    (es : List Entry) (command : Text) (c : ℕ)
    → (fuzzy_lookup es command ≡ some c) ↔ (
        (4 ≤ length command)
        × ((d : ℕ) × IsBest command (fuzzy_max_distance (length command)) es c d))
fuzzy_lookup_iff es command c = (
  λ h. (found es command c h, found-IsBest es command c h),
  λ h. best_found es command c h.1.0 h.0 h.1.1,
)
