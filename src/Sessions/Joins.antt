-- ===== src/Sessions/Joins.antt =====
-- A chatter without a session gets one at the next poll.
use tripbot.Base.{
  ◌%◌, ◌+◌, ◌≡◌, ◌∙◌, refl, inl, inr, true, false, none, some, List, [], ◌∷◌, arith, ◌==◌, ==_iff,
  Option-cases, Bool-cases,
}
use tripbot.Base.Int.{pos}
use tripbot.Base.Maps.{find, find-put}
use tripbot.Sessions.{
  Name, User, Row, World, Env, save, login_if_necessary, login, login_user, find_or_create, create,
  logout, update_session, for_each, names, has, without, of_row,
}
use tripbot.Sessions.Ledger.{join-Same}
use tripbot.Sessions.Presence.{joins_present, logouts_find, has-names, has-without}
use tripbot.Sessions.Known.{IsNumbered, for_each-preserves, join-IsNumbered, logout-IsNumbered}

find_or_create_known :
    (env : Env) (n : Name) (w : World)
    → IsNumbered w
    → env.lookup_ok ≡ true
    → env.create_ok ≡ true
    → env.reread_ok ≡ true
    → (u : User) × ((find_or_create env n w).1 ≡ some u)
      × ((u.id == 0) ≡ false)
      × (u.miles_checkpointed ≡ pos 0)
      × (u.session_extra_miles ≡ pos 0)
unfolding find_or_create create
find_or_create_known env n w (next, h) l c o = elim (Option-cases (w.rows n)) [
  | inl away ↦
      let row : Row = record {
        id = w.next_id;
        miles = pos 0;
        num_visits = 1;
        is_bot = false;
        last_seen = env.now;
      } in
      (of_row n row, ground (arith, l, c, o, away), next, refl, refl)
  | inr (r, here) ↦ (of_row n r, ground (arith, l, here), h n r here, refl, refl)
]

-- The entry of a session that has just begun.
pub record Fresh (env : Env) (n : Name) (w : World) : Type 0 where
  pub user : User
  pub here : find n w.logged_in ≡ some user
  pub now : user.logged_in ≡ env.now
  pub unbanked : user.miles_checkpointed ≡ pos 0
  pub ungifted : user.session_extra_miles ≡ pos 0

login-Fresh :
    (env : Env) (n : Name) (w : World)
    → IsNumbered w
    → env.lookup_ok ≡ true
    → env.create_ok ≡ true
    → env.reread_ok ≡ true
    → Fresh env n (login env n w)
unfolding login login_user
login-Fresh env n w numbered l c o =
    let (u, found, known, zero, ungifted) = find_or_create_known env n w numbered l c o in
    let v = (find_or_create env n w).0 in
    let user = record u {
      num_visits = (u.num_visits + 1) % 65536;
      logged_in = env.now;
      last_seen = env.now;
    } in
    rw (login, found, login_user, known)
      (record {
        user = user;
        here = ground (arith, find-put n n user (save env user v).logged_in, ==_iff n n);
        now = refl;
        unbanked = zero;
        ungifted = ungifted;
      })

login_if_necessary_away :
    (env : Env) (n : Name) (w : World)
    → find n w.logged_in ≡ none
    → login_if_necessary env n w ≡ login env n w
unfolding login_if_necessary
login_if_necessary_away env n w h = rw (login_if_necessary, h) refl

joins-Fresh :
    (env : Env) (ns : List Name) (n : Name) (w : World)
    → IsNumbered w
    → env.lookup_ok ≡ true
    → env.create_ok ≡ true
    → env.reread_ok ≡ true
    → has n ns ≡ true
    → find n w.logged_in ≡ none
    → Fresh env n (for_each (login_if_necessary env) ns w)
unfolding for_each
joins-Fresh env [] n w numbered l c o h away = ground (arith, h)
joins-Fresh env (m ∷ ns) n w numbered l c o h away = elim (Bool-cases (m == n)) [
  | inl k ↦
      let f = login-Fresh env n w numbered l c o in
      let at : find n (login_if_necessary env m w).logged_in ≡ some f.user =
        rw ((==_iff m n).0 k, login_if_necessary_away env n w away) f.here in
      record {
        user = f.user;
        here = joins_present env ns n f.user (login_if_necessary env m w) at;
        now = f.now;
        unbanked = f.unbanked;
        ungifted = f.ungifted;
      }
  | inr k ↦
      joins-Fresh env ns n (login_if_necessary env m w) (join-IsNumbered env m w numbered) l c o
        (ground (arith, h, k)) ((join-Same env m w n k).entry ∙ away)
]

-- A chatter whom the poll finds without a session gets one that starts at the poll with nothing
-- banked and no gifts, when the database serves lookups, inserts and their reads and numbers its users from 1.
pub update_session_joins :
    (env : Env) (chatters : List Name) (n : Name) (w : World)
    → IsNumbered w
    → env.lookup_ok ≡ true
    → env.create_ok ≡ true
    → env.reread_ok ≡ true
    → has n chatters ≡ true
    → find n w.logged_in ≡ none
    → Fresh env n (update_session env chatters w)
unfolding update_session
update_session_joins env chatters n w numbered l c o h away =
    let present = names w.logged_in in
    let gone = without present chatters in
    joins-Fresh env (without chatters present) n (for_each (logout env) gone w)
      (for_each-preserves IsNumbered (logout env) (logout-IsNumbered env) gone w numbered) l c o
      (ground (
        arith,
        h,
        away,
        has-without n chatters present,
        has-names n w.logged_in,
        Bool-cases (has n present),
      ))
      (ground (arith, away, logouts_find env gone n w))
