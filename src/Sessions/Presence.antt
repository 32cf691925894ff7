-- ===== src/Sessions/Presence.antt =====
-- Who has a session: the poll of the chatters, and shutdown.
use tripbot.Base.{
  ◌≡◌, ◌∙◌, refl, ◌↔◌, inl, inr, true, false, not, ◌&&◌, none, some, List, [], ◌∷◌, arith, ◌==◌,
  if◌then◌else◌, ==_iff, Option-cases, Bool-cases,
}
use tripbot.Base.Maps.{find, find-remove}
use tripbot.Sessions.{
  Name, User, World, Env, login_if_necessary, logout, update_session, shutdown, for_each, names,
  has, without,
}
use tripbot.Sessions.Ledger.{join-Same}
use tripbot.Sessions.Keyed.{close_entries}

find-logout :
    (env : Env) (m n : Name) (w : World)
    → find n (logout env m w).logged_in ≡ (if m == n then none else find n w.logged_in)
unfolding logout
find-logout env m n w = elim (Option-cases (find m w.logged_in)) [
  | inl away ↦
      rw (logout, away)
        (elim (Bool-cases (m == n)) [
          | inl h ↦ rw h (rw ((==_iff m n).0 h) at away)
          | inr h ↦ rw h refl
        ])
  | inr (u, here) ↦ rw (logout, here, close_entries) (find-remove m n w.logged_in)
]

pub logouts_find :
    (env : Env) (ns : List Name) (n : Name) (w : World)
    → find n (for_each (logout env) ns w).logged_in
      ≡ (if has n ns then none else find n w.logged_in)
unfolding for_each
logouts_find env [] n w = refl
logouts_find env (m ∷ ns) n w =
    ground (arith, logouts_find env ns n (logout env m w), find-logout env m n w)

pub has-names : (n : Name) (m : List (Name × User)) → (has n (names m) ≡ false) ↔ (find n m ≡ none)
unfolding find
has-names n [] = ground arith
has-names n ((i, u) ∷ m) = ground (arith, has-names n m)

pub has-without :
    (n : Name) (ns ms : List Name) → has n (without ns ms) ≡ has n ns && not (has n ms)
has-without n [] ms = refl
has-without n (m ∷ ns) ms = elim (Bool-cases (m == n)) [
  | inl h ↦ rw ((==_iff m n).0 h) (ground (arith, has-without n ns ms, ==_iff n n))
  | inr h ↦ ground (arith, h, has-without n ns ms)
]

joins_others :
    (env : Env) (ns : List Name) (n : Name) (w : World)
    → has n ns ≡ false
    → find n (for_each (login_if_necessary env) ns w).logged_in ≡ find n w.logged_in
unfolding for_each
joins_others env [] n w h = refl
joins_others env (m ∷ ns) n w h = elim (Bool-cases (m == n)) [
  | inl k ↦ ground (arith, h, k)
  | inr k ↦
      joins_others env ns n (login_if_necessary env m w) (ground (arith, h, k))
      ∙ (join-Same env m w n k).entry
]

join_present :
    (env : Env) (m n : Name) (u : User) (w : World)
    → find n w.logged_in ≡ some u
    → find n (login_if_necessary env m w).logged_in ≡ some u
unfolding login_if_necessary
join_present env m n u w h = elim (Bool-cases (m == n)) [
  | inl k ↦ rw ((==_iff m n).0 k, login_if_necessary, h) h
  | inr k ↦ (join-Same env m w n k).entry ∙ h
]

pub joins_present :
    (env : Env) (ns : List Name) (n : Name) (u : User) (w : World)
    → find n w.logged_in ≡ some u
    → find n (for_each (login_if_necessary env) ns w).logged_in ≡ some u
unfolding for_each
joins_present env [] n u w h = h
joins_present env (m ∷ ns) n u w h =
    joins_present env ns n u (login_if_necessary env m w) (join_present env m n u w h)

-- A viewer who is in the chat at the poll keeps the entry of their session, and one who is not has
-- no session after it.
pub update_session_sessions :
    (env : Env) (chatters : List Name) (n : Name) (w : World)
    → (has n chatters ≡ false → find n (update_session env chatters w).logged_in ≡ none)
      × ((u : User)
          → has n chatters ≡ true
          → find n w.logged_in ≡ some u
          → find n (update_session env chatters w).logged_in ≡ some u)
unfolding update_session
update_session_sessions env chatters n w =
    let present = names w.logged_in in
    let v = for_each (logout env) (without present chatters) w in
    (
      λ h.
          joins_others env (without chatters present) n v
            (ground (arith, h, has-without n chatters present))
          ∙ ground (
            arith,
            h,
            logouts_find env (without present chatters) n w,
            has-without n present chatters,
            has-names n w.logged_in,
          ),
      λ u h here. joins_present env (without chatters present) n u v (
          ground (
            arith,
            h,
            here,
            logouts_find env (without present chatters) n w,
            has-without n present chatters,
          )),
    )

-- A shutdown leaves no session.
pub shutdown_sessions :
    (env : Env) (n : Name) (w : World) → find n (shutdown env w).logged_in ≡ none
unfolding shutdown
shutdown_sessions env n w =
    ground (arith, logouts_find env (names w.logged_in) n w, has-names n w.logged_in)
