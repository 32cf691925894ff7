-- ===== src/Sessions/Logout.antt =====
-- The miles that a whole session leaves in the database.
use tripbot.Base.{◌≡◌, ◌∙◌, ap, refl, sym, subst, true, false, none, some, List, All, ◌==◌}
use tripbot.Base.Int.{ℤ, pos, ◌+ℤ◌, ◌≤ℤ◌, int_laws}
use tripbot.Base.Maps.{find, remove}
use tripbot.Sessions.{
  Name, User, Row, World, Env, save, in_flight_miles, session_total, logout, close,
}
use tripbot.Sessions.Ledger.{IsKeyed, Step, apply_all, add_to_score_rows, save-Same}
use tripbot.Sessions.Worth.{
  add_to_score_self, scores-save, save_self, in_flight_rest, session_total_cong,
  session_total_nonneg,
}
use tripbot.Sessions.Banked.{IsBanked, Stays, gifts_after, steps-IsBanked}

-- A logout banks what is still in flight.
closed :
    (n : Name) (u0 : User) (board0 : ℤ) (env : Env) (gifts : ℤ) (w : World)
    → env.save_ok ≡ true
    → env.add_ok ≡ true
    → u0.username ≡ n
    → IsBanked n u0 board0 env gifts w
    → let w' = logout env n w in
      ((r : Row) × (w'.rows n ≡ some r) × (r.miles ≡ u0.miles +ℤ gifts +ℤ session_total env u0))
      × (w'.scores env.month n ≡ board0 +ℤ session_total env u0)
unfolding logout close
closed n u0 board0 env gifts w ok add name b =
    let live = b.live in
    let d = in_flight_miles env live in
    let u = record live { miles = live.miles +ℤ d; last_seen = env.now } in
    let x = record w { logged_in = remove n w.logged_in } in
    let y = save env u x in
    let worth : live.miles_checkpointed +ℤ d ≡ session_total env u0 =
      in_flight_rest env live b.covered
      ∙ session_total_cong env live u0 (b.username ∙ sym name) b.since in
    let (r, at, total) = save_self env u n x b.username b.known ok b.stored in
    rw (logout, b.here)
      (
        (r, rw add_to_score_rows at, total ∙ ap (◌+ℤ d) b.balance ∙ rw (← worth) (omega int_laws)),
        rw
            (
              add_to_score_self env env.month live.username n d y refl b.username
                  ((save-Same env u x n).stored b.stored) add,
              scores-save,
              b.board,
              ← worth,
            )
            (omega int_laws),
      )

-- A session that starts with nothing banked and no gifts, of a stored user under their own name,
-- and ends in a logout that the database serves leaves in the row the miles that the entry had, the
-- gifts, and the whole session's miles, and adds the session's miles alone to the score on the board
-- of the month, when every checkpoint of the session falls into the month of the logout:
-- whatever checkpoints and gifts come between, and whoever else comes and goes. The subscription
-- stays as it is at the logout, and every checkpoint's score is stored.
pub session_banks :
    (n : Name) (u : User) (env : Env) (ss : List Step) (w : World)
    → IsKeyed w
    → find n w.logged_in ≡ some u
    → (u.id == 0) ≡ false
    → ¬ (w.rows n ≡ none)
    → u.session_extra_miles ≡ pos 0
    → u.miles_checkpointed ≡ pos 0
    → All (Stays n env) ss
    → env.save_ok ≡ true
    → env.add_ok ≡ true
    → let w' = logout env n (apply_all ss w) in
      ((r : Row) × (w'.rows n ≡ some r)
        × (r.miles ≡ u.miles +ℤ gifts_after (pos 0) ss +ℤ session_total env u))
      × (w'.scores env.month n ≡ w.scores env.month n +ℤ session_total env u)
session_banks n u env ss w keyed here known stored fresh unbanked stays ok add =
    closed n u (w.scores env.month n) env (gifts_after (pos 0) ss) (apply_all ss w) ok add
      (keyed n u here)
      (steps-IsBanked n u (w.scores env.month n) env ss (pos 0) w stays keyed (record {
        live = u;
        here = here;
        username = keyed n u here;
        since = refl;
        known = known;
        stored = stored;
        gifted = fresh;
        balance = rw unbanked (omega int_laws);
        board = rw unbanked (omega int_laws);
        covered = subst (λ c. c ≤ℤ session_total env u) (sym unbanked) (session_total_nonneg env u);
      }))
