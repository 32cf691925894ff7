-- ===== src/Base/Texts.antt =====
-- Texts as the lists of their bytes, with the tests of the `strings` package on them.
use Prim.Native.Nat.{ℕ}
use Prim.Native.Char.{code}
use Prim.Native.String.{String}
use mathlib.Core.Path.{◌≡◌, refl, ap}
use mathlib.Core.Logic.{◌↔◌, ◌⊎◌, inl, inr}
use mathlib.Core.Bool.{Bool, true, false}
use mathlib.Core.List.{List, [], ◌∷◌, ◌++◌}
use native.Mathlib.Omega.{arith}
use tripbot.Base.Tests.{◌==◌, if◌then◌else◌, Bool-cases}

abbrev pub Text : Type 0
Text = List ℕ

-- A literal as its bytes; the literals of this library are ASCII.
abbrev pub codes : String → Text
codes String.[] = []
codes (String.◌∷◌ c s) = code c ∷ codes s

abbrev pub same_text : Text → Text → Bool
same_text [] [] = true
same_text [] (y ∷ ys) = false
same_text (x ∷ xs) [] = false
same_text (x ∷ xs) (y ∷ ys) = let rest = same_text xs ys in if x == y then rest else false

pub same_text_eq : (xs ys : Text) → same_text xs ys ≡ true → xs ≡ ys
same_text_eq [] [] h = refl
same_text_eq [] (y ∷ ys) h = ground (arith, h)
same_text_eq (x ∷ xs) [] h = ground (arith, h)
same_text_eq (x ∷ xs) (y ∷ ys) h = ground (arith, h, same_text_eq xs ys)

pub same_text_self : (xs : Text) → same_text xs xs ≡ true
same_text_self [] = refl
same_text_self (x ∷ xs) = ground (arith, same_text_self xs)

pub same_text_iff : (xs ys : Text) → (same_text xs ys ≡ true) ↔ (xs ≡ ys)
same_text_iff xs ys = (same_text_eq xs ys, λ e. rw (← e) (same_text_self xs))

pub same_text_other : (xs ys : Text) → same_text xs ys ≡ false → same_text ys xs ≡ false
same_text_other xs ys h = elim (Bool-cases (same_text ys xs)) [
  | inr other ↦ other
  | inl same ↦
      absurd (ground (arith, h, same_text_self xs, ap (same_text xs) (same_text_eq ys xs same)))
]

-- `slices.Contains`.
abbrev pub mem_text : Text → List Text → Bool
mem_text x [] = false
mem_text x (y ∷ ys) = let rest = mem_text x ys in if same_text y x then true else rest

-- The texts of a list.
abbrev pub OneOf : Text → List Text → Type 0
OneOf x [] = ⊥
OneOf x (y ∷ ys) = (y ≡ x) ⊎ OneOf x ys

pub mem_text-OneOf : (x : Text) (ys : List Text) → mem_text x ys ≡ true → OneOf x ys
mem_text-OneOf x [] h = ground (arith, h)
mem_text-OneOf x (y ∷ ys) h = elim (Bool-cases (same_text y x)) [
  | inl same ↦ inl (same_text_eq y x same)
  | inr other ↦ inr (mem_text-OneOf x ys (ground arith))
]

pub OneOf-append_left : (x : Text) (ys zs : List Text) → OneOf x ys → OneOf x (ys ++ zs)
OneOf-append_left x [] zs h = elim h [ ]
OneOf-append_left x (y ∷ ys) zs (inl e) = inl e
OneOf-append_left x (y ∷ ys) zs (inr h) = inr (OneOf-append_left x ys zs h)

pub OneOf-append_right : (x : Text) (ys zs : List Text) → OneOf x zs → OneOf x (ys ++ zs)
OneOf-append_right x [] zs h = h
OneOf-append_right x (y ∷ ys) zs h = inr (OneOf-append_right x ys zs h)

-- `strings.HasPrefix`, prefix first.
abbrev pub has_prefix : Text → Text → Bool
has_prefix [] s = true
has_prefix (c ∷ p) [] = false
has_prefix (c ∷ p) (d ∷ s) = let rest = has_prefix p s in if c == d then rest else false

pub has_prefix_eq : (p s : Text) → has_prefix p s ≡ true → (r : Text) × (s ≡ p ++ r)
has_prefix_eq [] s h = (s, refl)
has_prefix_eq (c ∷ p) [] h = ground (arith, h)
has_prefix_eq (c ∷ p) (d ∷ s) h = elim (Bool-cases (c == d)) [
  | inl same ↦ let (r, e) = has_prefix_eq p s (ground arith) in (r, ground (arith, same, e))
  | inr other ↦ ground (arith, h, other)
]

-- What follows the first bytes, as many as the prefix has.
abbrev pub after : Text → Text → Text
after [] s = s
after (c ∷ p) [] = []
after (c ∷ p) (d ∷ s) = after p s

-- `strings.TrimPrefix`, prefix first.
abbrev pub trim_prefix : Text → Text → Text
trim_prefix p s = if has_prefix p s then after p s else s

-- `strings.Split` at one byte.
abbrev onto : ℕ → List Text → List Text
onto c [] = (c ∷ []) ∷ []
onto c (s ∷ ss) = (c ∷ s) ∷ ss

abbrev pub split : ℕ → Text → List Text
split sep [] = [] ∷ []
split sep (c ∷ s) = let rest = split sep s in if c == sep then [] ∷ rest else onto c rest
