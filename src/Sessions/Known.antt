-- ===== src/Sessions/Known.antt =====
-- Every session belongs to a stored user.
use tripbot.Base.{
  ◌%◌, ◌+◌, ◌≡◌, inl, inr, false, some, List, [], ◌∷◌, arith, ◌==◌, ==_iff, Option-cases,
  Bool-cases,
}
use tripbot.Base.Int.{ℤ, ◌+ℤ◌}
use tripbot.Base.Maps.{find, remove, find-put, find-remove}
use tripbot.Sessions.{
  Name, User, Row, World, Env, save, add_to_score, in_flight_miles, login_if_necessary, login,
  login_user, find_or_create, create, logout, close, update_session, for_each, names, without,
}
use tripbot.Sessions.Ledger.{save_entries, add_to_score_rows}
use tripbot.Sessions.Keyed.{close_entries, find_or_create_entries}

-- No session is of the zero user, whose miles are stored nowhere.
abbrev pub IsKnown : World → Type 0
IsKnown w = (m : Name) (u : User) → find m w.logged_in ≡ some u → (u.id == 0) ≡ false

-- The database numbers its users from 1.
abbrev pub IsNumbered : World → Type 0
IsNumbered w =
    ((w.next_id == 0) ≡ false) × ((m : Name) (r : Row) → w.rows m ≡ some r → (r.id == 0) ≡ false)

pub for_each-preserves :
    (P : World → Type 0) (f : Name → World → World)
    → ((m : Name) (w : World) → P w → P (f m w))
    → (ns : List Name) (w : World) → P w
    → P (for_each f ns w)
unfolding for_each
for_each-preserves P f h [] w p = p
for_each-preserves P f h (n ∷ ns) w p = for_each-preserves P f h ns (f n w) (h n w p)

login_user-IsKnown :
    (env : Env) (m : Name) (u : User) (w : World) → IsKnown w → IsKnown (login_user env m u w)
unfolding login_user
login_user-IsKnown env m u w known j v at =
    let user = record u {
      num_visits = (u.num_visits + 1) % 65536;
      logged_in = env.now;
      last_seen = env.now;
    } in
    ground (arith, at, known j v, find-put m j user w.logged_in, save_entries env user w)

login-IsKnown : (env : Env) (m : Name) (w : World) → IsKnown w → IsKnown (login env m w)
unfolding login
login-IsKnown env m w known =
    let same : IsKnown (find_or_create env m w).0 = rw find_or_create_entries known in
    elim (Option-cases (find_or_create env m w).1) [
      | inl lost ↦ rw (login, lost) same
      | inr (u, found) ↦
          rw (login, found) (login_user-IsKnown env m u (find_or_create env m w).0 same)
    ]

join-IsKnown : (env : Env) (m : Name) (w : World) → IsKnown w → IsKnown (login_if_necessary env m w)
unfolding login_if_necessary
join-IsKnown env m w known = elim (Option-cases (find m w.logged_in)) [
  | inl away ↦ rw (login_if_necessary, away) (login-IsKnown env m w known)
  | inr (u, here) ↦ rw (login_if_necessary, here) known
]

logout-IsKnown : (env : Env) (m : Name) (w : World) → IsKnown w → IsKnown (logout env m w)
unfolding logout
logout-IsKnown env m w known = elim (Option-cases (find m w.logged_in)) [
  | inl away ↦ rw (logout, away) known
  | inr (u, here) ↦
      rw (logout, here, close_entries)
        (λ j v at. ground (arith, at, find-remove m j w.logged_in, known j v))
]

-- A poll gives no session to the zero user, whatever the database serves.
pub update_session-IsKnown :
    (env : Env) (chatters : List Name) (w : World)
    → IsKnown w
    → IsKnown (update_session env chatters w)
unfolding update_session
update_session-IsKnown env chatters w known =
    let present = names w.logged_in in
    let away = without present chatters in
    for_each-preserves IsKnown (login_if_necessary env) (join-IsKnown env)
      (without chatters present) (for_each (logout env) away w)
      (for_each-preserves IsKnown (logout env) (logout-IsKnown env) away w known)

save-IsNumbered : (env : Env) (u : User) (w : World) → IsNumbered w → IsNumbered (save env u w)
unfolding save
save-IsNumbered env u w (next, h) = elim (Option-cases (w.rows u.username)) [
  | inl away ↦ (ground (arith, next, away), λ m r at. ground (arith, h m r, at, away))
  | inr (s, here) ↦ (
    ground (arith, next, here),
    λ m r at. ground (arith, h m r, h u.username s here, at, here, ==_iff u.username m),
  )
]

find_or_create-IsNumbered :
    (env : Env) (m : Name) (w : World) → IsNumbered w → IsNumbered (find_or_create env m w).0
unfolding find_or_create create
find_or_create-IsNumbered env m w (next, h) =
    (ground (arith, next), λ j r at. ground (arith, h j r, at, next))

login_user-IsNumbered :
    (env : Env) (m : Name) (u : User) (w : World) → IsNumbered w → IsNumbered (login_user env m u w)
unfolding login_user
login_user-IsNumbered env m u w numbered =
    let user = record u {
      num_visits = (u.num_visits + 1) % 65536;
      logged_in = env.now;
      last_seen = env.now;
    } in
    let saved = save-IsNumbered env user w numbered in
    elim (Bool-cases (u.id == 0)) [
      | inl h ↦ rw (login_user, h) numbered
      | inr h ↦ rw (login_user, h) (saved.0, saved.1)
    ]

pub join-IsNumbered :
    (env : Env) (m : Name) (w : World) → IsNumbered w → IsNumbered (login_if_necessary env m w)
unfolding login_if_necessary login
join-IsNumbered env m w numbered =
    let found-Numbered = find_or_create-IsNumbered env m w numbered in
    elim (Option-cases (find m w.logged_in)) [
      | inr (u, here) ↦ rw (login_if_necessary, here) numbered
      | inl away ↦
          rw (login_if_necessary, away)
            (elim (Option-cases (find_or_create env m w).1) [
              | inl lost ↦ rw (login, lost) found-Numbered
              | inr (u, found) ↦
                  rw (login, found)
                    (login_user-IsNumbered env m u (find_or_create env m w).0 found-Numbered)
            ])
    ]

add_to_score_next :
    (env : Env) (n : Name) (v : ℤ) (w : World) → (add_to_score env n v w).next_id ≡ w.next_id
unfolding add_to_score
add_to_score_next env n v w = ground arith

pub logout-IsNumbered :
    (env : Env) (m : Name) (w : World) → IsNumbered w → IsNumbered (logout env m w)
unfolding logout close
logout-IsNumbered env m w numbered = elim (Option-cases (find m w.logged_in)) [
  | inl away ↦ rw (logout, away) numbered
  | inr (u, here) ↦
      let e = in_flight_miles env u in
      let saved =
        save-IsNumbered env (record u { miles = u.miles +ℤ e; last_seen = env.now })
          (record w { logged_in = remove m w.logged_in }) numbered in
      rw (logout, here) (rw (add_to_score_next, add_to_score_rows) saved)
]
