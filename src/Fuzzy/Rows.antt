-- ===== src/Fuzzy/Rows.antt =====
-- The two rows of `levenshtein` hold edit distances of prefixes, read backwards.
use mathlib.Core.List.{reverse, reverse_aux, reverse-reverse}
use mathlib.Core.Path.{subst₂}
use native.Mathlib.Numerals.{add-one}
use tripbot.Base.{
  ℕ, suc, ◌+◌, ◌≡◌, refl, ap, ◌∙◌, List, [], ◌∷◌, arith, length, min, if◌then◌else◌, ◌==◌,
}
use tripbot.Fuzzy.{Text, first_row, fill, fill_rows, last_or, levenshtein}
use tripbot.Fuzzy.Edits.{
  Edits, IsDistance, edit_distance, edit_distance-nil, edit_distance-Edits, edit_distance-le,
  Edits-reverse,
}

-- The distances from `xs` to `ys` extended by the runes still to come.
later : Text → Text → Text → List ℕ
later xs ys [] = []
later xs ys (b ∷ bs) = edit_distance xs (b ∷ ys) ∷ later xs (b ∷ ys) bs

row : Text → Text → Text → List ℕ
row xs ys bs = edit_distance xs ys ∷ later xs ys bs

first_row-row : (ys bs : Text) → first_row (length ys) bs ≡ row [] ys bs
unfolding first_row row later edit_distance
first_row-row ys [] = refl
first_row-row ys (b ∷ bs) = ground (arith, first_row-row (b ∷ ys) bs)

edit_distance-cons :
    (x y : ℕ) (xs ys : Text)
    → edit_distance (x ∷ xs) (y ∷ ys)
      ≡ min
          (min (edit_distance xs (y ∷ ys) + 1) (edit_distance (x ∷ xs) ys + 1))
          (edit_distance xs ys + (if x == y then 0 else 1))
unfolding edit_distance
edit_distance-cons x y xs ys = refl

fill-later :
    (a : ℕ) (xs ys bs : Text)
    → fill a bs (row xs ys bs) (edit_distance (a ∷ xs) ys) ≡ later (a ∷ xs) ys bs
unfolding fill row later
fill-later a xs ys [] = refl
fill-later a xs ys (b ∷ bs) =
    rw (← edit_distance-cons a b xs ys)
      (ap (◌∷◌ (edit_distance (a ∷ xs) (b ∷ ys))) (fill-later a xs (b ∷ ys) bs))

next_row :
    (a : ℕ) (xs bs : Text)
    → suc (length xs) ∷ fill a bs (row xs [] bs) (suc (length xs)) ≡ row (a ∷ xs) [] bs
unfolding row
next_row a xs bs =
    let corner = edit_distance-nil (a ∷ xs) in
    rw (← corner) (ap (◌∷◌ (edit_distance (a ∷ xs) [])) (unfold row in fill-later a xs [] bs))

fill_rows-row :
    (rest xs bs : Text)
    → fill_rows (length xs + 1) rest bs (row xs [] bs) ≡ row (reverse_aux rest xs) [] bs
unfolding fill_rows
fill_rows-row [] xs bs = refl
fill_rows-row (a ∷ rest) xs bs =
    rw (add-one (length xs), next_row a xs bs) (fill_rows-row rest (a ∷ xs) bs)

last_or-row :
    (n : ℕ) (xs ys bs : Text) → last_or n (row xs ys bs) ≡ edit_distance xs (reverse_aux bs ys)
unfolding row later
last_or-row n xs ys [] = refl
last_or-row n xs ys (b ∷ bs) = last_or-row (edit_distance xs ys) xs (b ∷ ys) bs

levenshtein-edit_distance : (a b : Text) → levenshtein a b ≡ edit_distance (reverse a) (reverse b)
unfolding levenshtein
levenshtein-edit_distance a b =
    ap (λ r. last_or 0 (fill_rows 1 a b r)) (first_row-row [] b)
    ∙ ap (last_or 0) (fill_rows-row a [] b)
    ∙ last_or-row 0 (reverse a) [] b

-- `levenshtein` returns the fewest edits from the one text to the other.
pub levenshtein-IsDistance : (a b : Text) → IsDistance a b (levenshtein a b)
levenshtein-IsDistance a b =
    let there = edit_distance-Edits (reverse a) (reverse b) in
    rw (levenshtein-edit_distance a b) (record {
      reached =
          subst₂ (λ x y. Edits x y (edit_distance (reverse a) (reverse b))) (reverse-reverse a)
            (reverse-reverse b) (Edits-reverse there);
      fewest = λ m e. edit_distance-le m (Edits-reverse e);
    })
