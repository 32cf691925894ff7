-- ===== src/Sessions/Keyed.antt =====
-- The session map holds each viewer under their own username.
use tripbot.Base.{◌%◌, ◌+◌, ◌≡◌, refl, inl, inr, none, some, List, [], ◌∷◌, arith, Option-cases}
use tripbot.Base.Int.{ℤ, ◌+ℤ◌}
use tripbot.Base.Maps.{find, put, remove, find-put, find-remove}
use tripbot.Sessions.{
  Name, User, World, Env, checkpoint_user, checkpoint_miles, save, in_flight_miles,
  login_if_necessary, login, login_user, find_or_create, create, logout, close, give_everyone_miles,
  for_each, gift_all, names,
}
use tripbot.Sessions.Ledger.{IsKeyed, Step, apply, save_entries, add_to_score_entries}

put-IsKeyed :
    (m : Name) (u : User) (w : World)
    → IsKeyed w
    → u.username ≡ m
    → IsKeyed (record w { logged_in = put m u w.logged_in })
put-IsKeyed m u w keyed h j v at = ground (arith, find-put m j u w.logged_in, keyed j v, at, h)

remove-IsKeyed :
    (m : Name) (w : World) → IsKeyed w → IsKeyed (record w { logged_in = remove m w.logged_in })
remove-IsKeyed m w keyed j v at = ground (arith, find-remove m j w.logged_in, keyed j v, at)

pub checkpoint_user-IsKeyed :
    (env : Env) (m : Name) (w : World) → IsKeyed w → IsKeyed (checkpoint_user env m w)
unfolding checkpoint_user
checkpoint_user-IsKeyed env m w keyed j v at = elim (Option-cases (find m w.logged_in)) [
  | inl away ↦ keyed j v (rw (checkpoint_user, away) at at)
  | inr (live, here) ↦
      let e = in_flight_miles env live in
      let u = record live {
        miles = live.miles +ℤ e;
        miles_checkpointed = live.miles_checkpointed +ℤ e;
      } in
      let x = record w { logged_in = put m u w.logged_in } in
      ground (
        arith,
        at,
        here,
        keyed m live here,
        keyed j v,
        find-put m j u w.logged_in,
        save_entries env u x,
        add_to_score_entries env live.username e (save env u x),
      )
]

pub find_or_create_entries :
    (env : Env) (m : Name) (w : World) → (find_or_create env m w).0.logged_in ≡ w.logged_in
unfolding find_or_create create
find_or_create_entries env m w = ground arith

pub find_or_create_username :
    (env : Env) (m : Name) (w : World) (u : User)
    → (find_or_create env m w).1 ≡ some u
    → u.username ≡ m
unfolding find_or_create create
find_or_create_username env m w u h = ground (arith, h)

login_user-IsKeyed :
    (env : Env) (m : Name) (u : User) (w : World)
    → u.username ≡ m
    → IsKeyed w
    → IsKeyed (login_user env m u w)
unfolding login_user
login_user-IsKeyed env m u w h keyed j v at =
    let user = record u {
      num_visits = (u.num_visits + 1) % 65536;
      logged_in = env.now;
      last_seen = env.now;
    } in
    ground (arith, at, h, keyed j v, find-put m j user w.logged_in, save_entries env user w)

login-IsKeyed : (env : Env) (m : Name) (w : World) → IsKeyed w → IsKeyed (login env m w)
unfolding login
login-IsKeyed env m w keyed =
    let same : IsKeyed (find_or_create env m w).0 = rw find_or_create_entries keyed in
    elim (Option-cases (find_or_create env m w).1) [
      | inl lost ↦ rw (login, lost) same
      | inr (u, found) ↦
          rw (login, found)
            (login_user-IsKeyed env m u (find_or_create env m w).0
              (find_or_create_username env m w u found) same)
    ]

join-IsKeyed : (env : Env) (m : Name) (w : World) → IsKeyed w → IsKeyed (login_if_necessary env m w)
unfolding login_if_necessary
join-IsKeyed env m w keyed = elim (Option-cases (find m w.logged_in)) [
  | inl away ↦ rw (login_if_necessary, away) (login-IsKeyed env m w keyed)
  | inr (u, here) ↦ rw (login_if_necessary, here) keyed
]

pub close_entries : (env : Env) (u : User) (w : World) → (close env u w).logged_in ≡ w.logged_in
unfolding close
close_entries env u w = rw (add_to_score_entries, save_entries) refl

logout-IsKeyed : (env : Env) (m : Name) (w : World) → IsKeyed w → IsKeyed (logout env m w)
unfolding logout
logout-IsKeyed env m w keyed = elim (Option-cases (find m w.logged_in)) [
  | inl away ↦ rw (logout, away) keyed
  | inr (u, here) ↦ rw (logout, here, close_entries) (remove-IsKeyed m w keyed)
]

pub find-gift_all :
    (g : ℤ) (j : Name) (m : List (Name × User))
    → find j (gift_all g m) ≡ elim (find j m) [
      | none ↦ none
      | some u ↦
          some (record u { miles = u.miles +ℤ g; session_extra_miles = u.session_extra_miles +ℤ g })
    ]
unfolding find
find-gift_all g j [] = refl
find-gift_all g j ((i, u) ∷ m) = ground (arith, find-gift_all g j m)

gift-IsKeyed : (g : ℤ) (w : World) → IsKeyed w → IsKeyed (give_everyone_miles g w)
unfolding give_everyone_miles
gift-IsKeyed g w keyed j v at = elim (Option-cases (find j w.logged_in)) [
  | inl away ↦ ground (arith, at, away, find-gift_all g j w.logged_in)
  | inr (u, here) ↦ ground (arith, at, here, keyed j u here, find-gift_all g j w.logged_in)
]

pub for_each-IsKeyed :
    (f : Name → World → World)
    → ((m : Name) (w : World) → IsKeyed w → IsKeyed (f m w))
    → (ns : List Name) (w : World) → IsKeyed w
    → IsKeyed (for_each f ns w)
unfolding for_each
for_each-IsKeyed f h [] w keyed = keyed
for_each-IsKeyed f h (n ∷ ns) w keyed = for_each-IsKeyed f h ns (f n w) (h n w keyed)

-- No step puts a viewer under another name than their own.
pub apply-IsKeyed : (s : Step) (w : World) → IsKeyed w → IsKeyed (apply s w)
unfolding apply checkpoint_miles
apply-IsKeyed (Step.checkpoint env) w keyed =
    for_each-IsKeyed (checkpoint_user env) (checkpoint_user-IsKeyed env) (names w.logged_in) w keyed
apply-IsKeyed (Step.gift g) w keyed = gift-IsKeyed g w keyed
apply-IsKeyed (Step.join env m) w keyed = join-IsKeyed env m w keyed
apply-IsKeyed (Step.leave env m) w keyed = logout-IsKeyed env m w keyed
