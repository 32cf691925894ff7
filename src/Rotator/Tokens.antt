-- ===== src/Rotator/Tokens.antt =====
-- The scan for tokens loses nothing of the text.
use tripbot.Base.{
  Text, ℕ, ◌≡◌, ◌∙◌, ap, refl, inl, inr, Bool, true, List, [], ◌∷◌, ◌++◌, arith, ◌==◌, Bool-cases,
  ==_iff, if◌then◌else◌,
}
use tripbot.Rotator.{
  Vars, is_empty, value, Piece, plain, token, Scan, outside, marked, inside, backwards, pieces,
  is_lower, is_name, substitute, expand,
}

-- The text that pieces were cut from.
abbrev pub joined : ℕ → List Piece → Text
joined mark [] = []
joined mark (plain c ∷ ps) = c ∷ joined mark ps
joined mark (token t ∷ ps) = mark ∷ t ++ joined mark ps

-- What the scan has read and not yet cut off.
abbrev pending : ℕ → Scan → Text → Text
pending mark outside text = text
pending mark marked text = mark ∷ text
pending mark (inside name) text = mark ∷ backwards name text

backwards_append :
    (name acc text : Text) → backwards name acc ++ text ≡ backwards name (acc ++ text)
backwards_append [] acc text = refl
backwards_append (c ∷ name) acc text = backwards_append name (c ∷ acc) text

module _ (mark : ℕ) (first rest : ℕ → Bool) where
  -- Put together again, the pieces of a text are the text.
  joined-pieces :
      (s : Scan) (text : Text) → joined mark (pieces mark first rest s text) ≡ pending mark s text
  unfolding pieces
  joined-pieces outside [] = refl
  joined-pieces marked [] = refl
  joined-pieces (inside name) [] = ap (mark ∷◌) (backwards_append name [] [])
  joined-pieces outside (c ∷ cs) =
      ground (arith, joined-pieces outside cs, joined-pieces marked cs, ==_iff c mark)
  joined-pieces marked (c ∷ cs) = ground (
    arith,
    joined-pieces outside cs,
    joined-pieces marked cs,
    joined-pieces (inside (c ∷ [])) cs,
    ==_iff c mark,
  )
  joined-pieces (inside name) (c ∷ cs) =
      let tail =
        if c == mark
        then pieces mark first rest marked cs
        else plain c ∷ pieces mark first rest outside cs in
      let goes_on : joined mark tail ≡ c ∷ cs =
        ground (arith, joined-pieces outside cs, joined-pieces marked cs, ==_iff c mark) in
      elim (Bool-cases (rest c)) [
        | inl more ↦ rw more (joined-pieces (inside (c ∷ name)) cs)
        | inr over ↦ rw (over, goes_on) (ap (mark ∷◌) (backwards_append name [] (c ∷ cs)))
      ]

-- Putting the pieces of a text together gives the text back.
pub joined-pieces_text :
    (mark : ℕ) (first rest : ℕ → Bool) (text : Text)
    → joined mark (pieces mark first rest outside text) ≡ text
joined-pieces_text mark first rest text = joined-pieces mark first rest outside text

-- No variable has a value.
abbrev pub AllEmpty : Vars → Type 0
AllEmpty vars = (name : Text) → is_empty (value vars name) ≡ true

substitute-joined :
    (vars : Vars) (ps : List Piece) → AllEmpty vars → substitute vars ps ≡ joined b'$' ps
substitute-joined vars [] h = refl
substitute-joined vars (plain c ∷ ps) h = ap (c ∷◌) (substitute-joined vars ps h)
substitute-joined vars (token n ∷ ps) h = rw (h n, substitute-joined vars ps h) refl

-- `Expand` leaves a text as written when no variable has a value.
pub expand_unknown : (vars : Vars) (text : Text) → AllEmpty vars → expand vars text ≡ text
unfolding expand
expand_unknown vars text h = elim (Bool-cases (is_empty vars)) [
  | inl none_at_all ↦ rw (expand, none_at_all) refl
  | inr some_values ↦
      rw (expand, some_values)
        (substitute-joined vars (pieces b'$' is_lower is_name outside text) h
          ∙ joined-pieces_text b'$' is_lower is_name text)
]
