-- ===== src/Messages/Live.antt =====
-- What holds of every session, through the changes that a message makes to the sessions.
use tripbot.Base.{
  false, ap, ◌≡◌, inl, inr, ◌==◌, ==_iff, some, List, arith, Bool-cases, Option-cases, subst,
}
use tripbot.Base.Maps.{find, put, remove, find-put, find-remove}
use tripbot.Messages.{Name, User, World, on_live}

abbrev pub AllLive : (Name → User → Type 0) → List (Name × User) → Type 0
AllLive P m = (n : Name) (u : User) → find n m ≡ some u → P n u

module _ (P : Name → User → Type 0) where
  pub put-AllLive :
      (name : Name) (u : User) (m : List (Name × User))
      → AllLive P m
      → P name u
      → AllLive P (put name u m)
  put-AllLive name u m all h n v e = elim (Bool-cases (name == n)) [
    | inl same ↦
        let is : u ≡ v = ground (arith, find-put name n u m, same, e) in
        subst (λ k. P k v) ((==_iff name n).0 same) (subst (P name) is h)
    | inr other ↦ all n v (ground (arith, find-put name n u m, other, e))
  ]

  pub remove-AllLive :
      (name : Name) (m : List (Name × User)) → AllLive P m → AllLive P (remove name m)
  remove-AllLive name m all n u e = all n u (ground (arith, find-remove name n m, e))

-- A change of one entry, and of what holds of the others.
pub on_live-change :
    (P Q : Name → User → Type 0) (f : User → User) (name : Name) (w : World)
    → ((u : User) → P name u → Q name (f u))
    → ((n : Name) (u : User) → (name == n) ≡ false → P n u → Q n u)
    → AllLive P w.logged_in
    → AllLive Q (on_live f name w).logged_in
on_live-change P Q f name w here others all n v e = elim (Option-cases (find name w.logged_in)) [
  | inl away ↦ elim (Bool-cases (name == n)) [
    | inl same ↦
        absurd (ground (arith, e, away, ap (λ k. find k w.logged_in) ((==_iff name n).0 same)))
    | inr other ↦ others n v other (all n v (ground (arith, e, away)))
  ]
  | inr (live, at) ↦
      let put' : find n (put name (f live) w.logged_in) ≡ some v = ground (arith, e, at) in
      elim (Bool-cases (name == n)) [
        | inl same ↦
            let is : f live ≡ v =
              ground (arith, find-put name n (f live) w.logged_in, same, put') in
            subst (λ k. Q k v) ((==_iff name n).0 same)
              (subst (Q name) is (here live (all name live at)))
        | inr other ↦
            others n v other
              (all n v (ground (arith, find-put name n (f live) w.logged_in, other, put')))
      ]
]

pub on_live-AllLive :
    (P : Name → User → Type 0) (f : User → User) (name : Name) (w : World)
    → ((u : User) → P name u → P name (f u))
    → AllLive P w.logged_in
    → AllLive P (on_live f name w).logged_in
on_live-AllLive P f name w keeps all = on_live-change P P f name w keeps (λ n u other h. h) all
