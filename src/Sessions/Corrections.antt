-- ===== src/Sessions/Corrections.antt =====
-- Manual corrections of miles.
use tripbot.Base.{ℕ, ◌≡◌, refl, inl, inr, true, none, some, arith, Option-cases, Bool-cases, ==_iff}
use tripbot.Base.Int.{ℤ, pos, ◌+ℤ◌, ◌-ℤ◌, ◌≤ℤ◌, ltb_ℤ, int_laws}
use tripbot.Base.Maps.{find, put}
use tripbot.Sessions.{
  Name, User, Row, World, Env, clamp_clawback, claw_monthly, correct_monthly, score_error,
  correct_miles, save, add_to_score, find_or_create, create,
}

-- A clawback that the balance covers leaves it at or above zero, and takes no more than was asked.
clamp_nonneg :
    (balance delta : ℤ) → pos 0 ≤ℤ balance → pos 0 ≤ℤ balance +ℤ clamp_clawback balance delta
unfolding clamp_clawback ◌+ℤ◌ ◌-ℤ◌
clamp_nonneg balance delta h = ground arith

clamp_credit : (balance delta : ℤ) → pos 0 ≤ℤ delta → clamp_clawback balance delta ≡ delta
unfolding clamp_clawback
clamp_credit balance delta h = ground arith

clamp_bounds :
    (balance delta : ℤ)
    → delta ≤ℤ pos 0
    → (delta ≤ℤ clamp_clawback balance delta) × (clamp_clawback balance delta ≤ℤ pos 0)
unfolding clamp_clawback ◌-ℤ◌
clamp_bounds balance delta h = ground arith

clamp_empty :
    (balance delta : ℤ) → balance ≤ℤ pos 0 → delta ≤ℤ pos 0 → clamp_clawback balance delta ≡ pos 0
unfolding clamp_clawback ◌-ℤ◌
clamp_empty balance delta h k = ground arith

scores-save : (env : Env) (u : User) (w : World) → (save env u w).scores ≡ w.scores
unfolding save
scores-save env u w = ground arith

add_to_score_nonneg :
    (env : Env) (n : Name) (v : ℤ) (w : World) (b : ℕ) (j : Name)
    → pos 0 ≤ℤ w.scores b j
    → pos 0 ≤ℤ w.scores env.month n +ℤ v
    → pos 0 ≤ℤ (add_to_score env n v w).scores b j
unfolding add_to_score
add_to_score_nonneg env n v w b j h k = ground (arith, ==_iff n j, ==_iff env.month b)

take_back : (a : ℤ) → pos 0 ≤ℤ a +ℤ (pos 0 -ℤ a)
take_back a = omega int_laws

add_back : (a b : ℤ) → pos 0 ≤ℤ a → pos 0 ≤ℤ b → pos 0 ≤ℤ a +ℤ b
add_back a b h k = omega int_laws

score_error_neg : ltb_ℤ score_error (pos 0) ≡ true
unfolding ◌-ℤ◌
score_error_neg = refl

claw_monthly_nonneg :
    (env : Env) (n : Name) (delta : ℤ) (w : World) (b : ℕ) (j : Name)
    → pos 0 ≤ℤ w.scores env.month n
    → pos 0 ≤ℤ w.scores b j
    → pos 0 ≤ℤ (claw_monthly env n delta (w.scores env.month n) w).scores b j
unfolding claw_monthly
claw_monthly_nonneg env n delta w b j h k = ground (
  arith,
  take_back (w.scores env.month n),
  add_to_score_nonneg env n delta w b j,
  add_to_score_nonneg env n (pos 0 -ℤ w.scores env.month n) w b j,
)

claw_monthly_error :
    (env : Env) (n : Name) (delta : ℤ) (w : World) → claw_monthly env n delta score_error w ≡ w
unfolding claw_monthly
claw_monthly_error env n delta w = ground (arith, score_error_neg)

correct_monthly_nonneg :
    (env : Env) (u : User) (delta : ℤ) (w : World) (b : ℕ) (j : Name)
    → pos 0 ≤ℤ w.scores env.month u.username
    → pos 0 ≤ℤ w.scores b j
    → pos 0 ≤ℤ (correct_monthly env u delta w).scores b j
unfolding correct_monthly
correct_monthly_nonneg env u delta w b j h k =
    let n = u.username in
    elim (Bool-cases env.score_ok) [
      | inl ok ↦ ground (
        arith,
        ok,
        add_back (w.scores env.month n) delta,
        add_to_score_nonneg env n delta w b j,
        claw_monthly_nonneg env n delta w b j h k,
      )
      | inr bad ↦ ground (
        arith,
        bad,
        add_back (w.scores env.month n) delta,
        add_to_score_nonneg env n delta w b j,
        claw_monthly_error env n delta w,
      )
    ]

find_or_create_scores :
    (env : Env) (name : Name) (w : World) → (find_or_create env name w).0.scores ≡ w.scores
unfolding find_or_create create
find_or_create_scores env name w = ground arith

saved_nonneg :
    (env : Env) (u : User) (delta : ℤ) (w : World)
    → ((b : ℕ) (j : Name) → pos 0 ≤ℤ w.scores b j)
    → (b : ℕ) (j : Name) → pos 0 ≤ℤ (correct_monthly env u delta (save env u w)).scores b j
saved_nonneg env u delta w h b j =
    correct_monthly_nonneg env u delta (save env u w) b j
      (rw (scores-save env u w) (h env.month u.username)) (rw (scores-save env u w) (h b j))

-- A correction never takes a monthly score below zero.
pub correct_miles-scores_nonneg :
    (env : Env) (name : Name) (delta : ℤ) (w : World)
    → ((b : ℕ) (j : Name) → pos 0 ≤ℤ w.scores b j)
    → (b : ℕ) (j : Name) → pos 0 ≤ℤ (correct_miles env name delta w).0.scores b j
unfolding correct_miles
correct_miles-scores_nonneg env name delta w h b j = elim (Option-cases (find name w.logged_in)) [
  | inl away ↦ elim (Option-cases (find_or_create env name w).1) [
    | inl lost ↦ rw (correct_miles, away, lost, find_or_create_scores env name w) (h b j)
    | inr (r, found) ↦
        let d = clamp_clawback r.miles delta in
        rw (correct_miles, away, found)
          (saved_nonneg env (record r { miles = r.miles +ℤ d }) d (find_or_create env name w).0
            (λ m i. rw (find_or_create_scores env name w) (h m i)) b j)
  ]
  | inr (live, here) ↦
      let d = clamp_clawback live.miles delta in
      let u = record live { miles = live.miles +ℤ d } in
      rw (correct_miles, here)
        (saved_nonneg env u d (record w { logged_in = put name u w.logged_in }) h b j)
]

-- The balance that a correction starts from: the live entry's, the row's, or that of a new row.
abbrev pub balance : Name → World → ℤ
balance name w = elim (find name w.logged_in) [
  | some live ↦ live.miles
  | none ↦ elim (w.rows name) [ some r ↦ r.miles | none ↦ pos 0 ]
]

-- A correction that is applied reports the balance with the applied delta added, and never leaves
-- a balance that was not below zero below zero.
pub correct_miles_total :
    (env : Env) (name : Name) (delta total d : ℤ) (w : World)
    → (correct_miles env name delta w).1 ≡ some (total, d)
    → pos 0 ≤ℤ balance name w
    → (total ≡ balance name w +ℤ d) × (pos 0 ≤ℤ total) × (d ≡ clamp_clawback (balance name w) delta)
unfolding correct_miles find_or_create create
correct_miles_total env name delta total d w h k =
    ground (arith, clamp_nonneg (balance name w) delta)

-- A correction that fails changes no session, no score and no row that is there.
pub correct_miles_error :
    (env : Env) (name : Name) (delta : ℤ) (w : World)
    → (correct_miles env name delta w).1 ≡ none
    → ((correct_miles env name delta w).0.logged_in ≡ w.logged_in)
      × ((correct_miles env name delta w).0.scores ≡ w.scores)
      × ((n : Name) (r : Row)
          → w.rows n ≡ some r
          → (correct_miles env name delta w).0.rows n ≡ some r)
unfolding correct_miles find_or_create create
correct_miles_error env name delta w h =
    (ground arith, ground arith, λ n r at. ground (arith, ==_iff name n, at))
