-- ===== src/Fuzzy/Edits.antt =====
-- What an edit distance is: the fewest insertions, deletions and substitutions, and a recursion
-- that computes it.
use mathlib.Core.List.{reverse, append-nil, reverse-cons}
use native.Mathlib.Nat.{zero-add, suc-add}
use tripbot.Base.{
  ℕ, zero, suc, ◌+◌, ◌≤◌, ◌≡◌, refl, subst, min, [], ◌∷◌, ◌++◌, arith, ◌==◌, ==_iff, if◌then◌else◌,
  length, inl, inr, ◌⊎◌, Bool-cases, lt_or_le,
}
use tripbot.Fuzzy.{Text}

-- `Edits xs ys n`: a way to edit `xs` into `ys` with `n` edits.
pub data Edits : Text → Text → ℕ → Type 0 where
  done : Edits [] [] zero
  keep : {x : ℕ} {xs ys : Text} {n : ℕ} → Edits xs ys n → Edits (x ∷ xs) (x ∷ ys) n
  put : {x y : ℕ} {xs ys : Text} {n : ℕ} → Edits xs ys n → Edits (x ∷ xs) (y ∷ ys) (suc n)
  delete : {x : ℕ} {xs ys : Text} {n : ℕ} → Edits xs ys n → Edits (x ∷ xs) ys (suc n)
  add : {y : ℕ} {xs ys : Text} {n : ℕ} → Edits xs ys n → Edits xs (y ∷ ys) (suc n)

-- The fewest edits from the one text to the other.
pub record IsDistance (xs ys : Text) (n : ℕ) : Type 0 where
  pub reached : Edits xs ys n
  pub fewest : (m : ℕ) → Edits xs ys m → n ≤ m

Edits-append :
    {xs ys us vs : Text} {n m : ℕ}
    → Edits xs ys n
    → Edits us vs m
    → Edits (xs ++ us) (ys ++ vs) (n + m)
Edits-append done f = rw zero-add f
Edits-append (keep e) f = keep (Edits-append e f)
Edits-append (put e) f = rw suc-add (put (Edits-append e f))
Edits-append (delete e) f = rw suc-add (delete (Edits-append e f))
Edits-append (add e) f = rw suc-add (add (Edits-append e f))

Edits-snoc :
    {xs ys us vs : Text} {n m k : ℕ}
    → Edits xs ys n
    → Edits us vs m
    → n + m ≡ k
    → Edits (xs ++ us) (ys ++ vs) k
Edits-snoc {xs} {ys} {us} {vs} e f h = subst (Edits (xs ++ us) (ys ++ vs)) h (Edits-append e f)

pub Edits-reverse : {xs ys : Text} {n : ℕ} → Edits xs ys n → Edits (reverse xs) (reverse ys) n
Edits-reverse done = done
Edits-reverse (keep {x} {xs} {ys} e) =
    rw (reverse-cons x xs, reverse-cons x ys)
      (Edits-snoc (Edits-reverse e) (keep done) (omega arith))
Edits-reverse (put {x} {y} {xs} {ys} e) =
    rw (reverse-cons x xs, reverse-cons y ys)
      (Edits-snoc (Edits-reverse e) (put done) (omega arith))
Edits-reverse (delete {x} {xs} {ys} e) =
    rw (reverse-cons x xs, ← append-nil (reverse ys))
      (Edits-snoc (Edits-reverse e) (delete done) (omega arith))
Edits-reverse (add {y} {xs} {ys} e) =
    rw (reverse-cons y ys, ← append-nil (reverse xs))
      (Edits-snoc (Edits-reverse e) (add done) (omega arith))

-- The recursion on the two texts.
unfoldable pub edit_distance : Text → Text → ℕ
edit_distance [] ys = length ys
edit_distance (x ∷ xs) [] = suc (length xs)
edit_distance (x ∷ xs) (y ∷ ys) =
    min (min (edit_distance xs (y ∷ ys) + 1) (edit_distance (x ∷ xs) ys + 1))
      (edit_distance xs ys + (if x == y then 0 else 1))

pub edit_distance-nil : (xs : Text) → edit_distance xs [] ≡ length xs
unfolding edit_distance
edit_distance-nil [] = refl
edit_distance-nil (x ∷ xs) = refl

delete_le : (x : ℕ) (xs ys : Text) → edit_distance (x ∷ xs) ys ≤ suc (edit_distance xs ys)
unfolding edit_distance
delete_le x xs [] = omega (arith, edit_distance-nil xs)
delete_le x xs (y ∷ ys) = omega arith

add_le : (y : ℕ) (xs ys : Text) → edit_distance xs (y ∷ ys) ≤ suc (edit_distance xs ys)
unfolding edit_distance
add_le y [] ys = omega arith
add_le y (x ∷ xs) ys = omega arith

pub edit_distance-le : {xs ys : Text} (n : ℕ) → Edits xs ys n → edit_distance xs ys ≤ n
unfolding edit_distance
edit_distance-le n done = omega arith
edit_distance-le n (keep e) = ground (arith, edit_distance-le n e)
edit_distance-le (suc n) (put e) = ground (arith, edit_distance-le n e)
edit_distance-le (suc n) (delete {x} {xs} {ys} e) =
    omega (arith, edit_distance-le n e, delete_le x xs ys)
edit_distance-le (suc n) (add {y} {xs} {ys} e) = omega (arith, edit_distance-le n e, add_le y xs ys)

add_all : (ys : Text) → Edits [] ys (length ys)
add_all [] = done
add_all (y ∷ ys) = add (add_all ys)

delete_all : (xs : Text) → Edits xs [] (length xs)
delete_all [] = done
delete_all (x ∷ xs) = delete (delete_all xs)

min_cases : (a b : ℕ) → (min a b ≡ a) ⊎ (min a b ≡ b)
min_cases a b = elim (lt_or_le a b) [ inl h ↦ inl (omega arith) | inr h ↦ inr (omega arith) ]

pub edit_distance-Edits : (xs ys : Text) → Edits xs ys (edit_distance xs ys)
unfolding edit_distance
edit_distance-Edits [] ys = add_all ys
edit_distance-Edits (x ∷ xs) [] = delete_all (x ∷ xs)
edit_distance-Edits (x ∷ xs) (y ∷ ys) =
    let drop = edit_distance xs (y ∷ ys) + 1 in
    let insert = edit_distance (x ∷ xs) ys + 1 in
    let skip = edit_distance xs ys + (if x == y then 0 else 1) in
    elim (min_cases (min drop insert) skip) [
      | inl e ↦ elim (min_cases drop insert) [
        | inl e' ↦
            subst (Edits (x ∷ xs) (y ∷ ys)) (omega arith) (delete (edit_distance-Edits xs (y ∷ ys)))
        | inr e' ↦
            subst (Edits (x ∷ xs) (y ∷ ys)) (omega arith) (add (edit_distance-Edits (x ∷ xs) ys))
      ]
      | inr e ↦ elim (Bool-cases (x == y)) [
        | inl same ↦
            subst (λ z. Edits (x ∷ xs) (z ∷ ys) (edit_distance (x ∷ xs) (y ∷ ys)))
              ((==_iff x y).0 same)
              (subst (Edits (x ∷ xs) (x ∷ ys)) (ground arith) (keep (edit_distance-Edits xs ys)))
        | inr differ ↦
            subst (Edits (x ∷ xs) (y ∷ ys)) (ground arith) (put (edit_distance-Edits xs ys))
      ]
    ]
