-- ===== src/Sessions/Banked.antt =====
-- The miles that a session banks between its login and its logout.
use tripbot.Base.{
  ◌≤◌, ◌≡◌, ◌∙◌, ap, refl, inl, inr, true, false, none, some, List, [], ◌∷◌, All, arith, ◌==◌,
  ==_iff, Bool-cases,
}
use tripbot.Base.Int.{ℤ, pos, ◌+ℤ◌, ◌≤ℤ◌, ltb_ℤ, int_laws}
use tripbot.Base.Maps.{find, put, find-put}
use tripbot.Sessions.{
  Name, User, World, Env, checkpoint_user, checkpoint_miles, save, in_flight_miles, session_total,
  session_bonus, login_if_necessary, logout, give_everyone_miles, for_each, names,
}
use tripbot.Sessions.Ledger.{
  IsKeyed, Step, apply, apply_all, Same, save_entries, add_to_score_entries, add_to_score_rows,
  save-Same, checkpoint_user-Same, join-Same, leave-Same,
}
use tripbot.Sessions.Keyed.{apply-IsKeyed, checkpoint_user-IsKeyed, find-gift_all}
use tripbot.Sessions.Worth.{
  add_to_score_self, scores-save, session_total_mono, session_total_banked, in_flight_banked,
}

-- A viewer's entry and score agree on what is banked, which is no more than the session is worth
-- at `env`: `gifts` are the miles given during the session.
pub record IsBanked (n : Name) (u0 : User) (board0 : ℤ) (env : Env) (gifts : ℤ) (w : World)
    : Type 0 where
  pub live : User
  pub here : find n w.logged_in ≡ some live
  pub username : live.username ≡ n
  pub since : live.logged_in ≡ u0.logged_in
  pub known : (live.id == 0) ≡ false
  pub stored : ¬ (w.rows n ≡ none)
  pub gifted : live.session_extra_miles ≡ gifts
  pub balance : live.miles ≡ u0.miles +ℤ gifts +ℤ live.miles_checkpointed
  pub board : w.scores env.month n ≡ board0 +ℤ live.miles_checkpointed
  pub covered : live.miles_checkpointed ≤ℤ session_total env live

-- The subscription of `n` at `e` is the one at `env`, no later, in the same month, and a score that `e` adds is stored.
pub record Steady (n : Name) (env e : Env) : Type 0 where
  pub subscribed : e.subscriber n ≡ env.subscriber n
  pub tiered : e.tier n ≡ env.tier n
  pub same_month : e.month ≡ env.month
  pub earlier : e.now ≤ env.now
  pub scored : e.add_ok ≡ true

module _ (n : Name) (u0 : User) (board0 : ℤ) (env : Env) where
  kept :
      (gifts : ℤ) (w w' : World)
      → Same n w w'
      → IsBanked n u0 board0 env gifts w
      → IsBanked n u0 board0 env gifts w'
  kept gifts w w' s b = record {
    live = b.live;
    here = s.entry ∙ b.here;
    username = b.username;
    since = b.since;
    known = b.known;
    stored = s.stored b.stored;
    gifted = b.gifted;
    balance = b.balance;
    board = s.score env.month ∙ b.board;
    covered = b.covered;
  }

  -- The viewer's own checkpoint.
  checkpointed :
      (e : Env) (gifts : ℤ) (w : World)
      → Steady n env e
      → IsBanked n u0 board0 env gifts w
      → IsBanked n u0 board0 env gifts (checkpoint_user e n w)
  unfolding checkpoint_user
  checkpointed e gifts w s b =
      let live = b.live in
      let d = in_flight_miles e live in
      let u = record live {
        miles = live.miles +ℤ d;
        miles_checkpointed = live.miles_checkpointed +ℤ d;
      } in
      let x = record w { logged_in = put n u w.logged_in } in
      let y = save e u x in
      let worth : session_total e live ≤ℤ session_total env live =
        session_total_mono e env live (rw b.username s.subscribed) (rw b.username s.tiered)
          s.earlier in
      rw (checkpoint_user, b.here)
        (elim (Bool-cases (ltb_ℤ (pos 0) d)) [
          | inl h ↦ rw h (record {
            live = u;
            here = ground (
              arith,
              add_to_score_entries e live.username d y,
              save_entries e u x,
              find-put n n u w.logged_in,
              ==_iff n n,
            );
            username = b.username;
            since = b.since;
            known = b.known;
            stored = rw add_to_score_rows ((save-Same e u x n).stored b.stored);
            gifted = b.gifted;
            balance = ap (◌+ℤ d) b.balance ∙ omega int_laws;
            board =
                rw
                  (
                    add_to_score_self e env.month live.username n d y s.same_month b.username
                        ((save-Same e u x n).stored b.stored) s.scored,
                    scores-save,
                    b.board,
                  )
                  (omega int_laws);
            covered =
                rw
                  (
                    session_total_banked env live (live.miles +ℤ d) (live.miles_checkpointed +ℤ d),
                    in_flight_banked e live h,
                  )
                  worth;
          })
          | inr h ↦ rw h b
        ])

  checkpoint_each :
      (e : Env) (gifts : ℤ) (ns : List Name) (w : World)
      → Steady n env e
      → IsKeyed w
      → IsBanked n u0 board0 env gifts w
      → IsBanked n u0 board0 env gifts (for_each (checkpoint_user e) ns w)
  unfolding for_each
  checkpoint_each e gifts [] w s keyed b = b
  checkpoint_each e gifts (m ∷ ns) w s keyed b =
      let keyed' = checkpoint_user-IsKeyed e m w keyed in
      let b' : IsBanked n u0 board0 env gifts (checkpoint_user e m w) = elim (Bool-cases (m == n)) [
        | inl h ↦ rw ((==_iff m n).0 h) (checkpointed e gifts w s b)
        | inr h ↦ kept gifts w (checkpoint_user e m w) (checkpoint_user-Same e m w n keyed h) b
      ] in
      checkpoint_each e gifts ns (checkpoint_user e m w) s keyed' b'

  given :
      (g gifts : ℤ) (w : World)
      → IsBanked n u0 board0 env gifts w
      → IsBanked n u0 board0 env (gifts +ℤ g) (give_everyone_miles g w)
  unfolding give_everyone_miles session_total session_bonus
  given g gifts w b = record {
    live = record b.live {
      miles = b.live.miles +ℤ g;
      session_extra_miles = b.live.session_extra_miles +ℤ g;
    };
    here = rw (find-gift_all, b.here) refl;
    username = b.username;
    since = b.since;
    known = b.known;
    stored = b.stored;
    gifted = ap (◌+ℤ g) b.gifted;
    balance = ap (◌+ℤ g) b.balance ∙ omega int_laws;
    board = b.board;
    covered = b.covered;
  }

-- The miles given by the steps, after `g`.
unfoldable pub gifts_after : ℤ → List Step → ℤ
gifts_after g [] = g
gifts_after g (Step.gift v ∷ ss) = gifts_after (g +ℤ v) ss
gifts_after g (Step.checkpoint env ∷ ss) = gifts_after g ss
gifts_after g (Step.join env m ∷ ss) = gifts_after g ss
gifts_after g (Step.leave env m ∷ ss) = gifts_after g ss

-- A step while `n` stays, on a subscription that does not change until `env`.
unfoldable pub Stays : Name → Env → Step → Type 0
Stays n env (Step.checkpoint e) = Steady n env e
Stays n env (Step.gift v) = Unit
Stays n env (Step.join e m) = Unit
Stays n env (Step.leave e m) = (m == n) ≡ false

joined :
    (n : Name) (u0 : User) (board0 : ℤ) (env e : Env) (m : Name) (gifts : ℤ) (w : World)
    → IsBanked n u0 board0 env gifts w
    → IsBanked n u0 board0 env gifts (login_if_necessary e m w)
unfolding login_if_necessary
joined n u0 board0 env e m gifts w b = elim (Bool-cases (m == n)) [
  | inl h ↦ rw (login_if_necessary, ((==_iff m n).0 h), b.here) b
  | inr h ↦ kept n u0 board0 env gifts w (login_if_necessary e m w) (join-Same e m w n h) b
]

pub steps-IsBanked :
    (n : Name) (u0 : User) (board0 : ℤ) (env : Env) (ss : List Step) (gifts : ℤ) (w : World)
    → All (Stays n env) ss
    → IsKeyed w
    → IsBanked n u0 board0 env gifts w
    → IsBanked n u0 board0 env (gifts_after gifts ss) (apply_all ss w)
unfolding apply_all apply Stays gifts_after checkpoint_miles
steps-IsBanked n u0 board0 env [] gifts w h keyed b = b
steps-IsBanked n u0 board0 env (Step.checkpoint e ∷ ss) gifts w (s, h) keyed b =
    steps-IsBanked n u0 board0 env ss gifts (checkpoint_miles e w) h
      (apply-IsKeyed (Step.checkpoint e) w keyed)
      (checkpoint_each n u0 board0 env e gifts (names w.logged_in) w s keyed b)
steps-IsBanked n u0 board0 env (Step.gift v ∷ ss) gifts w (s, h) keyed b =
    steps-IsBanked n u0 board0 env ss (gifts +ℤ v) (give_everyone_miles v w) h
      (apply-IsKeyed (Step.gift v) w keyed) (given n u0 board0 env v gifts w b)
steps-IsBanked n u0 board0 env (Step.join e m ∷ ss) gifts w (s, h) keyed b =
    steps-IsBanked n u0 board0 env ss gifts (login_if_necessary e m w) h
      (apply-IsKeyed (Step.join e m) w keyed) (joined n u0 board0 env e m gifts w b)
steps-IsBanked n u0 board0 env (Step.leave e m ∷ ss) gifts w (s, h) keyed b =
    steps-IsBanked n u0 board0 env ss gifts (logout e m w) h
      (apply-IsKeyed (Step.leave e m) w keyed)
      (kept n u0 board0 env gifts w (logout e m w) (leave-Same e m w n keyed s) b)
