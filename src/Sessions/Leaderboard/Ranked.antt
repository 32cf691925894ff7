-- ===== src/Sessions/Leaderboard/Ranked.antt =====
-- The leaderboard after an update.
use mathlib.Core.Option.{some-injective}
use tripbot.Base.Maps.{find}
use tripbot.Base.{
  ◌≡◌, refl, inl, inr, some, List, [], ◌∷◌, All, arith, Bool-cases, if◌then◌else◌, map, Text, ◌∙◌,
  ap, sym, none, Option-cases,
}
use tripbot.Base.Int.{ℤ, ◌≤ℤ◌}
use tripbot.Sessions.{Name, User, World, Env, current_miles}
use tripbot.Sessions.Leaderboard.{Entry, Format, overlay, rank, to_pairs, update_leaderboard}
use tripbot.Sessions.Leaderboard.Rank.{IsRanked, at_miles, rank-IsRanked, at_miles-rank}

-- The entries but for the owner's.
abbrev pub listed : Format → List Entry → List Entry
listed c [] = []
listed c (e ∷ es) = let rest = listed c es in if c.is_admin e.0 then rest else e ∷ rest

abbrev pub shown : Format → Entry → Name × Text
shown c e = (e.0, c.miles_text e.1)

to_pairs_lem : (c : Format) (es : List Entry) → to_pairs c es ≡ map (shown c) (listed c es)
unfolding to_pairs
to_pairs_lem c [] = refl
to_pairs_lem c (e ∷ es) = ground (arith, to_pairs_lem c es)

listed-All : (P : Entry → Type 0) (c : Format) (es : List Entry) → All P es → All P (listed c es)
listed-All P c [] h = tt
listed-All P c (e ∷ es) h = elim (Bool-cases (c.is_admin e.0)) [
  | inl admin ↦ rw admin (listed-All P c es h.1)
  | inr other ↦ rw other (h.0, listed-All P c es h.1)
]

listed-IsRanked : (c : Format) (es : List Entry) → IsRanked es → IsRanked (listed c es)
listed-IsRanked c [] h = tt
listed-IsRanked c (e ∷ es) h = elim (Bool-cases (c.is_admin e.0)) [
  | inl admin ↦ rw admin (listed-IsRanked c es h.1)
  | inr other ↦ rw other (listed-All (λ f. f.1 ≤ℤ e.1) c es h.0, listed-IsRanked c es h.1)
]

at_miles-listed :
    (m : ℤ) (c : Format) (es : List Entry) → at_miles m (listed c es) ≡ listed c (at_miles m es)
at_miles-listed m c [] = refl
at_miles-listed m c (e ∷ es) = ground (arith, at_miles-listed m c es)

-- What an entry of the query shows: the miles of the viewer's session if they are logged in, and the
-- stored ones if not.
pub record IsCurrent (env : Env) (w : World) (stored now : Entry) : Type 0 where
  pub same_viewer : now.0 ≡ stored.0
  pub away : find stored.0 w.logged_in ≡ none → now.1 ≡ stored.1
  pub live : (u : User) → find stored.0 w.logged_in ≡ some u → now.1 ≡ current_miles env w u

-- Entry by entry.
abbrev pub AreCurrent : Env → World → List Entry → List Entry → Type 0
AreCurrent env w [] [] = Unit
AreCurrent env w (s ∷ ss) (n ∷ ns) = IsCurrent env w s n × AreCurrent env w ss ns
AreCurrent env w _ _ = ⊥

overlay-IsCurrent : (env : Env) (w : World) (e : Entry) → IsCurrent env w e (overlay env w e)
unfolding overlay
overlay-IsCurrent env w (name, miles) = elim (Option-cases (find name w.logged_in)) [
  | inl e ↦
      rw (overlay, e)
        (record { same_viewer = refl; away = λ h. refl; live = λ u h. absurd (ground (arith, h)) })
  | inr (x, e) ↦
      rw (overlay, e)
        (record {
          same_viewer = refl;
          away = λ h. absurd (ground (arith, h));
          live = λ u h. ap (current_miles env w) (some-injective x u (sym e ∙ h));
        })
]

overlay-AreCurrent :
    (env : Env) (w : World) (es : List Entry) → AreCurrent env w es (map (overlay env w) es)
overlay-AreCurrent env w [] = tt
overlay-AreCurrent env w (e ∷ es) = (overlay-IsCurrent env w e, overlay-AreCurrent env w es)

-- An update whose query is served shows the viewers of the query without the owner, each with the
-- current miles of their session if they are logged in and the stored ones if not, by descending
-- miles; those of equal miles stand in the query's order, and none is lost or shown twice.
pub update_leaderboard-IsRanked :
    (c : Format) (env : Env) (w : World) (es : List Entry) (board : List (Name × Text))
    → (live : List Entry) × (ranked : List Entry) × AreCurrent env w es live
      × (update_leaderboard c env w (some es) board ≡ map (shown c) ranked)
      × IsRanked ranked
      × ((m : ℤ) → at_miles m ranked ≡ at_miles m (listed c live))
unfolding update_leaderboard
update_leaderboard-IsRanked c env w es board =
    let live = map (overlay env w) es in
    (
      live,
      listed c (rank live),
      overlay-AreCurrent env w es,
      to_pairs_lem c (rank live),
      listed-IsRanked c (rank live) (rank-IsRanked live),
      λ m.
          at_miles-listed m c (rank live)
          ∙ ap (listed c) (at_miles-rank m live)
          ∙ sym (at_miles-listed m c live),
    )
