-- ===== src/Sessions/Ledger.antt =====
-- What a session banks: the steps that a world takes while one viewer stays, and what they leave alone.
use tripbot.Base.{
  ℕ, ◌∙◌, ◌%◌, ◌+◌, ◌≡◌, refl, inl, inr, false, none, some, List, [], ◌∷◌, arith, ◌==◌,
  Option-cases, Bool-cases,
}
use tripbot.Base.Int.{ℤ, pos, ◌+ℤ◌, ltb_ℤ}
use tripbot.Base.Maps.{find, put, remove, find-put, find-remove}
use tripbot.Sessions.{
  Name, User, World, Env, checkpoint_user, checkpoint_miles, save, add_to_score, in_flight_miles,
  login_if_necessary, login, login_user, find_or_create, create, logout, close, give_everyone_miles,
}

-- What happens while a viewer's session lasts.
pub data Step : Type 0 where
  checkpoint : Env → Step
  gift : ℤ → Step
  join : Env → Name → Step
  leave : Env → Name → Step

unfoldable pub apply : Step → World → World
apply (checkpoint env) w = checkpoint_miles env w
apply (gift g) w = give_everyone_miles g w
apply (join env m) w = login_if_necessary env m w
apply (leave env m) w = logout env m w

unfoldable pub apply_all : List Step → World → World
apply_all [] w = w
apply_all (s ∷ ss) w = apply_all ss (apply s w)

-- Every entry's username is its key.
abbrev pub IsKeyed : World → Type 0
IsKeyed w = (m : Name) (u : User) → find m w.logged_in ≡ some u → u.username ≡ m

-- What a step on another viewer leaves alone.
pub record Same (n : Name) (w w' : World) : Type 0 where
  pub entry : find n w'.logged_in ≡ find n w.logged_in
  pub score : (month : ℕ) → w'.scores month n ≡ w.scores month n
  pub stored : ¬ (w.rows n ≡ none) → ¬ (w'.rows n ≡ none)

pub save-Same : (env : Env) (u : User) (w : World) (n : Name) → Same n w (save env u w)
unfolding save
save-Same env u w n = record {
  entry = ground arith;
  score = λ month. ground arith;
  stored = ground arith;
}

pub save_entries : (env : Env) (u : User) (w : World) → (save env u w).logged_in ≡ w.logged_in
unfolding save
save_entries env u w = ground arith

pub add_to_score_entries :
    (env : Env) (m : Name) (v : ℤ) (w : World) → (add_to_score env m v w).logged_in ≡ w.logged_in
unfolding add_to_score
add_to_score_entries env m v w = ground arith

pub add_to_score_rows :
    (env : Env) (m : Name) (v : ℤ) (w : World) → (add_to_score env m v w).rows ≡ w.rows
unfolding add_to_score
add_to_score_rows env m v w = ground arith

add_to_score-Same :
    (env : Env) (m : Name) (v : ℤ) (w : World) (n : Name)
    → (m == n) ≡ false
    → Same n w (add_to_score env m v w)
unfolding add_to_score
add_to_score-Same env m v w n h = record {
  entry = ground arith;
  score = λ month. ground arith;
  stored = ground arith;
}

Same-trans : (n : Name) (w v x : World) → Same n w v → Same n v x → Same n w x
Same-trans n w v x a b = record {
  entry = ground (arith, a.entry, b.entry);
  score = λ month. b.score month ∙ a.score month;
  stored = λ h. b.stored (a.stored h);
}

put-Same :
    (m : Name) (u : User) (w : World) (n : Name)
    → (m == n) ≡ false
    → Same n w (record w { logged_in = put m u w.logged_in })
put-Same m u w n h = record {
  entry = ground (arith, find-put m n u w.logged_in);
  score = λ month. refl;
  stored = λ k. k;
}

remove-Same :
    (m : Name) (w : World) (n : Name)
    → (m == n) ≡ false
    → Same n w (record w { logged_in = remove m w.logged_in })
remove-Same m w n h = record {
  entry = ground (arith, find-remove m n w.logged_in);
  score = λ month. refl;
  stored = λ k. k;
}

pub checkpoint_user-Same :
    (env : Env) (m : Name) (w : World) (n : Name)
    → IsKeyed w
    → (m == n) ≡ false
    → Same n w (checkpoint_user env m w)
unfolding checkpoint_user
checkpoint_user-Same env m w n keyed h = elim (Option-cases (find m w.logged_in)) [
  | inl away ↦
      rw (checkpoint_user, away) (record { entry = refl; score = λ month. refl; stored = λ k. k })
  | inr (live, here) ↦
      let e = in_flight_miles env live in
      let u = record live {
        miles = live.miles +ℤ e;
        miles_checkpointed = live.miles_checkpointed +ℤ e;
      } in
      let v = record w { logged_in = put m u w.logged_in } in
      let other : (live.username == n) ≡ false = ground (arith, keyed m live here, h) in
      let banked =
        Same-trans n w v (add_to_score env live.username e (save env u v)) (put-Same m u w n h) (
          Same-trans n v (save env u v) (add_to_score env live.username e (save env u v))
            (save-Same env u v n) (add_to_score-Same env live.username e (save env u v) n other)) in
      rw (checkpoint_user, here)
        (elim (Bool-cases (ltb_ℤ (pos 0) e)) [
          | inl b ↦ rw b banked
          | inr b ↦ rw b (record { entry = refl; score = λ month. refl; stored = λ k. k })
        ])
]

create-Same : (env : Env) (m : Name) (w : World) (n : Name) → Same n w (create env m w).0
unfolding create
create-Same env m w n = record {
  entry = ground arith;
  score = λ month. ground arith;
  stored = ground arith;
}

find_or_create-Same :
    (env : Env) (m : Name) (w : World) (n : Name) → Same n w (find_or_create env m w).0
unfolding find_or_create create
find_or_create-Same env m w n = record {
  entry = ground arith;
  score = λ month. ground arith;
  stored = ground arith;
}

login_user-Same :
    (env : Env) (m : Name) (u : User) (w : World) (n : Name)
    → (m == n) ≡ false
    → Same n w (login_user env m u w)
unfolding login_user save
login_user-Same env m u w n h = record {
  entry = ground (
    arith,
    find-put m n
        (record u {
          num_visits = (u.num_visits + 1) % 65536;
          logged_in = env.now;
          last_seen = env.now;
        })
        w.logged_in,
  );
  score = λ month. ground arith;
  stored = ground arith;
}

login-Same :
    (env : Env) (m : Name) (w : World) (n : Name) → (m == n) ≡ false → Same n w (login env m w)
unfolding login
login-Same env m w n h = elim (Option-cases (find_or_create env m w).1) [
  | inl lost ↦ rw (login, lost) (find_or_create-Same env m w n)
  | inr (u, found) ↦
      let v = (find_or_create env m w).0 in
      rw (login, found)
        (Same-trans n w v (login_user env m u v) (find_or_create-Same env m w n)
          (login_user-Same env m u v n h))
]

pub join-Same :
    (env : Env) (m : Name) (w : World) (n : Name)
    → (m == n) ≡ false
    → Same n w (login_if_necessary env m w)
unfolding login_if_necessary
join-Same env m w n h = elim (Option-cases (find m w.logged_in)) [
  | inl away ↦ rw (login_if_necessary, away) (login-Same env m w n h)
  | inr (u, here) ↦
      rw (login_if_necessary, here)
        (record { entry = refl; score = λ month. refl; stored = λ k. k })
]

close-Same :
    (env : Env) (u : User) (w : World) (n : Name)
    → (u.username == n) ≡ false
    → Same n w (close env u w)
unfolding close
close-Same env u w n h =
    let e = in_flight_miles env u in
    let u' = record u { miles = u.miles +ℤ e; last_seen = env.now } in
    let v = save env u' w in
    let all =
      Same-trans n w v (add_to_score env u.username e v) (save-Same env u' w n)
        (add_to_score-Same env u.username e v n h) in
    record { entry = all.entry; score = all.score; stored = all.stored }

pub leave-Same :
    (env : Env) (m : Name) (w : World) (n : Name)
    → IsKeyed w
    → (m == n) ≡ false
    → Same n w (logout env m w)
unfolding logout
leave-Same env m w n keyed h = elim (Option-cases (find m w.logged_in)) [
  | inl away ↦ rw (logout, away) (record { entry = refl; score = λ month. refl; stored = λ k. k })
  | inr (u, here) ↦
      let v = record w { logged_in = remove m w.logged_in } in
      rw (logout, here)
        (Same-trans n w v (close env u v) (remove-Same m w n h)
          (close-Same env u v n (ground (arith, keyed m u here, h))))
]
