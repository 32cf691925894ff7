-- ===== src/Sessions/Leaderboard/Rank.antt =====
-- The leaderboard's sort: descending, and stable among equal miles.
use tripbot.Base.{
  ◌≡◌, refl, inl, inr, ◌||◌, List, [], ◌∷◌, All, arith, Bool-cases, if◌then◌else◌, ◌∙◌, ap,
}
use tripbot.Base.Int.{ℤ, ltb_ℤ, ◌≤ℤ◌}
use tripbot.Sessions.Leaderboard.{Entry, insert, rank}

-- No entry has more miles than one before it.
abbrev pub IsRanked : List Entry → Type 0
IsRanked [] = Unit
IsRanked (e ∷ es) = All (λ f. f.1 ≤ℤ e.1) es × IsRanked es

-- The entries with those miles, in their order.
abbrev pub at_miles : ℤ → List Entry → List Entry
at_miles m [] = []
at_miles m (e ∷ es) =
    let rest = at_miles m es in if ltb_ℤ e.1 m || ltb_ℤ m e.1 then rest else e ∷ rest

insert-All :
    (P : Entry → Type 0) (e : Entry) (es : List Entry) → P e → All P es → All P (insert e es)
unfolding insert
insert-All P e [] p h = (p, tt)
insert-All P e (f ∷ fs) p h = elim (Bool-cases (ltb_ℤ e.1 f.1)) [
  | inl less ↦ rw (insert, less) (h.0, insert-All P e fs p h.1)
  | inr more ↦ rw (insert, more) (p, h)
]

All_below : (a b : ℤ) (es : List Entry) → a ≤ℤ b → All (λ f. f.1 ≤ℤ a) es → All (λ f. f.1 ≤ℤ b) es
All_below a b [] le h = tt
All_below a b (e ∷ es) le h = (omega (arith, le, h.0), All_below a b es le h.1)

insert-IsRanked : (e : Entry) (es : List Entry) → IsRanked es → IsRanked (insert e es)
unfolding insert
insert-IsRanked e [] h = (tt, tt)
insert-IsRanked e (f ∷ fs) h = elim (Bool-cases (ltb_ℤ e.1 f.1)) [
  | inl less ↦
      rw (insert, less)
        (insert-All (λ g. g.1 ≤ℤ f.1) e fs (ground (arith, less)) h.0, insert-IsRanked e fs h.1)
  | inr more ↦
      let le : f.1 ≤ℤ e.1 = ground (arith, more) in
      rw (insert, more) ((le, All_below f.1 e.1 fs le h.0), h)
]

pub rank-IsRanked : (es : List Entry) → IsRanked (rank es)
unfolding rank
rank-IsRanked [] = tt
rank-IsRanked (e ∷ es) = insert-IsRanked e (rank es) (rank-IsRanked es)

at_miles-insert :
    (m : ℤ) (e : Entry) (es : List Entry) → at_miles m (insert e es) ≡ at_miles m (e ∷ es)
unfolding insert
at_miles-insert m e [] = refl
at_miles-insert m e (f ∷ fs) = ground (arith, at_miles-insert m e fs)

-- The sort keeps the entries of each mileage, in their order.
pub at_miles-rank : (m : ℤ) (es : List Entry) → at_miles m (rank es) ≡ at_miles m es
unfolding rank
at_miles-rank m [] = refl
at_miles-rank m (e ∷ es) =
    at_miles-insert m e (rank es)
    ∙ ap (λ rest. if ltb_ℤ e.1 m || ltb_ℤ m e.1 then rest else e ∷ rest) (at_miles-rank m es)
