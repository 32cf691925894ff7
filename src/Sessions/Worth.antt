-- ===== src/Sessions/Worth.antt =====
-- What a session is worth, what of it is in flight, and what the two stores hold of it.
use tripbot.Base.{
  ℕ, ◌-◌, ◌*◌, ◌≤◌, ◌≡◌, ap, refl, inl, inr, true, false, none, some, arith, ◌==◌, max, ==_iff,
  Option-cases, ltb→lt, Bool-cases,
}
use native.Mathlib.Nat.{mul-le-mul_right}
use tripbot.Base.Int.{ℤ, pos, ◌+ℤ◌, ◌-ℤ◌, ◌≤ℤ◌, ltb_ℤ, int_laws}
use tripbot.Sessions.{
  Name, User, Row, World, Env, save, add_to_score, in_flight_miles, session_total, session_bonus,
  duration_to_miles,
}

pub add_to_score_self :
    (env : Env) (month : ℕ) (m n : Name) (v : ℤ) (w : World)
    → env.month ≡ month
    → m ≡ n
    → ¬ (w.rows n ≡ none)
    → env.add_ok ≡ true
    → (add_to_score env m v w).scores month n ≡ w.scores month n +ℤ v
unfolding add_to_score
add_to_score_self env month m n v w at e h k =
    ground (arith, at, e, h, k, ==_iff m n, ==_iff env.month month)

pub scores-save : (env : Env) (u : User) (w : World) → (save env u w).scores ≡ w.scores
unfolding save
scores-save env u w = ground arith

pub save_self :
    (env : Env) (u : User) (n : Name) (w : World)
    → u.username ≡ n
    → (u.id == 0) ≡ false
    → env.save_ok ≡ true
    → ¬ (w.rows n ≡ none)
    → (r : Row) × ((save env u w).rows n ≡ some r) × (r.miles ≡ u.miles)
unfolding save
save_self env u n w e h k l = elim (Option-cases (w.rows n)) [
  | inl away ↦ absurd (l away)
  | inr (r, here) ↦ (
    record {
      id = r.id;
      miles = u.miles;
      num_visits = u.num_visits;
      is_bot = u.is_bot;
      last_seen = u.last_seen;
    },
    ground (arith, e, h, k, here, ap w.rows e, ==_iff u.username n),
    refl,
  )
]

-- A longer session, on the same subscription, is worth no less.
pub session_total_mono :
    (e env : Env) (u : User)
    → e.subscriber u.username ≡ env.subscriber u.username
    → e.tier u.username ≡ env.tier u.username
    → e.now ≤ env.now
    → session_total e u ≤ℤ session_total env u
unfolding session_total duration_to_miles session_bonus ◌+ℤ◌
session_total_mono e env u h k l =
    let m = max 1 (env.tier u.username) in
    let product : (e.now - u.logged_in) * m ≤ (env.now - u.logged_in) * m =
      mul-le-mul_right m (omega (arith, l)) in
    ground (arith, h, ap (max 1) k, product)

-- What is banked does not change what the session is worth.
pub session_total_banked :
    (env : Env) (u : User) (a b : ℤ)
    → session_total env (record u { miles = a; miles_checkpointed = b }) ≡ session_total env u
unfolding session_total session_bonus
session_total_banked env u a b = refl

pub in_flight_banked :
    (e : Env) (u : User)
    → ltb_ℤ (pos 0) (in_flight_miles e u) ≡ true
    → u.miles_checkpointed +ℤ in_flight_miles e u ≡ session_total e u
unfolding in_flight_miles
in_flight_banked e u h =
    let d = session_total e u -ℤ u.miles_checkpointed in
    elim (Bool-cases (ltb_ℤ d (pos 0))) [
      | inl b ↦ ground (arith, b, h)
      | inr b ↦ rw (in_flight_miles, b) (omega int_laws)
    ]

pub in_flight_rest :
    (e : Env) (u : User)
    → u.miles_checkpointed ≤ℤ session_total e u
    → u.miles_checkpointed +ℤ in_flight_miles e u ≡ session_total e u
unfolding in_flight_miles
in_flight_rest e u h =
    let d = session_total e u -ℤ u.miles_checkpointed in
    elim (Bool-cases (ltb_ℤ d (pos 0))) [
      | inl b ↦ rw (in_flight_miles, b) (omega (int_laws, ltb→lt _ _ b))
      | inr b ↦ rw (in_flight_miles, b) (omega int_laws)
    ]

pub session_total_cong :
    (env : Env) (a b : User)
    → a.username ≡ b.username
    → a.logged_in ≡ b.logged_in
    → session_total env a ≡ session_total env b
unfolding session_total session_bonus
session_total_cong env a b h k = ground (arith, h, k)

pub session_total_nonneg : (e : Env) (u : User) → pos 0 ≤ℤ session_total e u
unfolding session_total duration_to_miles session_bonus ◌+ℤ◌
session_total_nonneg e u = ground arith
