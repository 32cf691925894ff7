-- ===== src/Playback/Picks.antt =====
-- !find: the moment that it jumps to.
use tripbot.Base.{
  ◌≡◌, refl, inl, inr, ◌⊎◌, ◌≤◌, ◌<◌, ℕ, zero, suc, Bool, true, false, some, List, [], ◌∷◌, All,
  arith, Bool-cases, length, Text, same_text, same_text_eq,
}
use tripbot.Playback.Pick.{same_moment, seen, moments, nth, drawn, find_hit}

module _ {H : Type 0} (far : H → Bool) (slug : H → Text) (bucket : H → ℕ) where
  abbrev moment : H → H → Bool
  moment = same_moment far slug bucket

  moment_trans : (a b c : H) → moment a b ≡ true → moment b c ≡ true → moment a c ≡ true
  moment_trans a b c h k = elim (Bool-cases (same_text (slug a) (slug b))) [
    | inr other ↦ absurd (ground (arith, h, other))
    | inl same ↦ rw (same_text_eq (slug a) (slug b) same) (ground (arith, h, same, k))
  ]

  seen-moment :
      (h m : H) (taken : List H)
      → seen far slug bucket h taken ≡ true
      → seen far slug bucket m taken ≡ false
      → moment h m ≡ false
  seen-moment h m [] was not' = absurd (ground (arith, was))
  seen-moment h m (k ∷ ks) was not' = elim (Bool-cases (moment h m)) [
    | inr other ↦ other
    | inl same ↦ elim (Bool-cases (moment k h)) [
      | inl hit ↦ absurd (ground (arith, not', moment_trans k h m hit same))
      | inr miss ↦ absurd (ground (arith, was, miss, not', same, seen-moment h m ks))
    ]
  ]

  -- Among the hits that are near enough it is the first one of its moment.
  abbrev pub FirstOf : H → List H → Type 0
  FirstOf m [] = ⊥
  FirstOf m (h ∷ hs) =
      (h ≡ m) ⊎ (((far h ≡ true) ⊎ (same_moment far slug bucket h m ≡ false)) × FirstOf m hs)

  abbrev IsPick : List H → List H → H → Type 0
  IsPick taken hits m = (far m ≡ false) × (seen far slug bucket m taken ≡ false) × FirstOf m hits

  -- A hit that no moment is taken from comes first in no moment.
  IsPick-skips :
      (h : H) (taken hs ms : List H)
      → (far h ≡ true) ⊎ (seen far slug bucket h taken ≡ true)
      → All (IsPick taken hs) ms
      → All (IsPick taken (h ∷ hs)) ms
  IsPick-skips h taken hs [] why all = tt
  IsPick-skips h taken hs (m ∷ ms) (inl away) (p, all) =
      ((p.0, p.1, inr (inl away, p.2)), IsPick-skips h taken hs ms (inl away) all)
  IsPick-skips h taken hs (m ∷ ms) (inr was) (p, all) = (
    (p.0, p.1, inr (inr (seen-moment h m taken was p.1), p.2)),
    IsPick-skips h taken hs ms (inr was) all,
  )

  IsPick-takes :
      (h : H) (taken hs ms : List H)
      → All (IsPick (h ∷ taken) hs) ms
      → All (IsPick taken (h ∷ hs)) ms
  IsPick-takes h taken hs [] all = tt
  IsPick-takes h taken hs (m ∷ ms) (p, all) =
      let apart : moment h m ≡ false = ground (arith, p.1) in
      let new : seen far slug bucket m taken ≡ false = ground (arith, p.1, apart) in
      ((p.0, new, inr (inr apart, p.2)), IsPick-takes h taken hs ms all)

  moments-IsPick :
      (room : ℕ) (taken hits : List H)
      → All (IsPick taken hits) (moments far slug bucket room taken hits)
  unfolding moments
  moments-IsPick zero taken [] = tt
  moments-IsPick (suc room) taken [] = tt
  moments-IsPick zero taken (h ∷ hs) = tt
  moments-IsPick (suc room) taken (h ∷ hs) = elim (Bool-cases (far h)) [
    | inl away ↦ rw away (IsPick-skips h taken hs _ (inl away) (moments-IsPick (suc room) taken hs))
    | inr near ↦ elim (Bool-cases (seen far slug bucket h taken)) [
      | inl was ↦
          rw (near, was) (IsPick-skips h taken hs _ (inr was) (moments-IsPick (suc room) taken hs))
      | inr new ↦
          rw (near, new)
            ((near, new, inl refl), IsPick-takes h taken hs _ (moments-IsPick room (h ∷ taken) hs))
    ]
  ]

  length-moments :
      (room : ℕ) (taken hits : List H) → length (moments far slug bucket room taken hits) ≤ room
  unfolding moments
  length-moments zero taken [] = omega arith
  length-moments (suc room) taken [] = omega arith
  length-moments zero taken (h ∷ hs) = omega arith
  length-moments (suc room) taken (h ∷ hs) =
      ground (arith, length-moments (suc room) taken hs, length-moments room (h ∷ taken) hs)

  nth-All :
      (P : H → Type 0) (d : H) (ms : List H) (i : ℕ)
      → All P ms
      → i < length ms
      → P (nth far slug bucket d ms i)
  nth-All P d [] i all lt = absurd (omega (arith, lt))
  nth-All P d (m ∷ ms) zero all lt = all.0
  nth-All P d (m ∷ ms) (suc i) all lt = nth-All P d ms i all.1 (omega (arith, lt))

  drawn-All :
      (P : H → Type 0) (draw : ℕ → ℕ) (d m : H) (ms : List H)
      → ((n : ℕ) → 0 < n → draw n < n)
      → All P (m ∷ ms)
      → P (drawn far slug bucket draw d (m ∷ ms))
  drawn-All P draw d m ms fair all =
      nth-All P d (m ∷ ms) (draw (length (m ∷ ms))) all (fair (length (m ∷ ms)) (omega arith))

  -- When the nearest hit is near enough, !find jumps to a hit that is near enough too, and the nearest
  -- of its moment: no hit before it of the same clip and the same minute is near enough. The draw
  -- stays in range.
  pub find_hit-FirstOf :
      (draw : ℕ → ℕ) (h : H) (hs : List H)
      → ((n : ℕ) → 0 < n → draw n < n)
      → far h ≡ false
      → (m : H) × (find_hit far slug bucket draw (h ∷ hs) ≡ some m)
        × (far m ≡ false)
        × FirstOf m (h ∷ hs)
  unfolding find_hit
  find_hit-FirstOf draw h hs fair near =
      let ms = moments far slug bucket 9 (h ∷ []) hs in
      let all : All (IsPick [] (h ∷ hs)) (h ∷ ms) =
        ((near, refl, inl refl), IsPick-takes h [] hs ms (moments-IsPick 9 (h ∷ []) hs)) in
      let pick = drawn-All (IsPick [] (h ∷ hs)) draw h h ms fair all in
      (drawn far slug bucket draw h (h ∷ ms), rw (near, moments) refl, pick.0, pick.2)
