-- ===== src/Sessions/Checkpoint.antt =====
-- A checkpoint moves miles from the session to the stores and changes no total.
use tripbot.Base.{
  ◌≡◌, ◌∙◌, ap, refl, sym, inl, inr, true, false, some, List, [], ◌∷◌, arith, ◌==◌, ==_iff,
  Bool-cases, if◌then◌else◌,
}
use tripbot.Base.Int.{ℤ, pos, ◌+ℤ◌, ◌-ℤ◌, ltb_ℤ, int_laws, +ℤ_zero}
use tripbot.Base.Maps.{find, put, find-put}
use tripbot.Sessions.{
  Name, User, current_miles, session_miles, World, Env, checkpoint_user, checkpoint_miles, save,
  add_to_score, in_flight_miles, session_total, for_each, names,
}
use tripbot.Sessions.Ledger.{IsKeyed, save_entries, add_to_score_entries, checkpoint_user-Same}
use tripbot.Sessions.Keyed.{checkpoint_user-IsKeyed}
use tripbot.Sessions.Worth.{scores-save, session_total_banked, in_flight_banked}

-- What a viewer sees as their miles, from their own live entry.
pub record Seen (env : Env) (n : Name) (total : ℤ) (w : World) : Type 0 where
  pub user : User
  pub here : find n w.logged_in ≡ some user
  pub username : user.username ≡ n
  pub total_is : user.miles +ℤ in_flight_miles env user ≡ total

sub_self : (a b : ℤ) → a ≡ b → b -ℤ a ≡ pos 0
sub_self a b h = rw h (omega int_laws)

in_flight_none :
    (env : Env) (u : User)
    → u.miles_checkpointed ≡ session_total env u
    → in_flight_miles env u ≡ pos 0
unfolding in_flight_miles
in_flight_none env u h =
    let d = session_total env u -ℤ u.miles_checkpointed in
    elim (Bool-cases (ltb_ℤ d (pos 0))) [
      | inl b ↦ rw (in_flight_miles, b) refl
      | inr b ↦ rw (in_flight_miles, b) (sub_self u.miles_checkpointed (session_total env u) h)
    ]

unscored :
    (env : Env) (n : Name) (v : ℤ) (w : World)
    → env.add_ok ≡ false
    → (add_to_score env n v w).scores ≡ w.scores
unfolding add_to_score
unscored env n v w h = ground (arith, h)

own_checkpoint :
    (env : Env) (n : Name) (total : ℤ) (w : World)
    → Seen env n total w
    → Seen env n total (checkpoint_user env n w)
unfolding checkpoint_user
own_checkpoint env n total w s =
    let live = s.user in
    let d = in_flight_miles env live in
    let u = record live {
      miles = live.miles +ℤ d;
      miles_checkpointed = live.miles_checkpointed +ℤ d;
    } in
    let x = record w { logged_in = put n u w.logged_in } in
    let y = save env u x in
    rw (checkpoint_user, s.here)
      (elim (Bool-cases (ltb_ℤ (pos 0) d)) [
        | inr h ↦ rw h s
        | inl h ↦
            let none_left : in_flight_miles env u ≡ pos 0 = in_flight_none env u (
              in_flight_banked env live h
              ∙ sym (
                  session_total_banked env live (live.miles +ℤ d)
                    (live.miles_checkpointed +ℤ d))) in
            rw h (record {
              user = u;
              here = ground (
                arith,
                add_to_score_entries env live.username d y,
                save_entries env u x,
                find-put n n u w.logged_in,
                ==_iff n n,
              );
              username = s.username;
              total_is = rw none_left (rw +ℤ_zero s.total_is);
            })
      ])

checkpoints-Seen :
    (env : Env) (n : Name) (total : ℤ) (ns : List Name) (w : World)
    → IsKeyed w
    → Seen env n total w
    → Seen env n total (for_each (checkpoint_user env) ns w)
unfolding for_each
checkpoints-Seen env n total [] w keyed s = s
checkpoints-Seen env n total (m ∷ ns) w keyed s =
    let s' : Seen env n total (checkpoint_user env m w) = elim (Bool-cases (m == n)) [
      | inl h ↦ rw ((==_iff m n).0 h) (own_checkpoint env n total w s)
      | inr h ↦ record {
        user = s.user;
        here = (checkpoint_user-Same env m w n keyed h).entry ∙ s.here;
        username = s.username;
        total_is = s.total_is;
      }
    ] in
    checkpoints-Seen env n total ns (checkpoint_user env m w)
      (checkpoint_user-IsKeyed env m w keyed) s'

current_of :
    (env : Env) (w : World) (n : Name) (u : User)
    → u.username ≡ n
    → find n w.logged_in ≡ some u
    → current_miles env w u ≡ u.miles +ℤ in_flight_miles env u
unfolding current_miles session_miles
current_of env w n u name here =
    let live : find u.username w.logged_in ≡ some u = ap (λ k. find k w.logged_in) name ∙ here in
    rw (current_miles, session_miles, live) refl

-- When every entry is kept under its own username, a checkpoint leaves each live viewer's miles,
-- those of the session included, as they were at the same instant.
pub checkpoint_miles-current_miles :
    (env : Env) (n : Name) (u : User) (w : World)
    → IsKeyed w
    → find n w.logged_in ≡ some u
    → (u' : User) × (find n (checkpoint_miles env w).logged_in ≡ some u')
      × (current_miles env (checkpoint_miles env w) u' ≡ current_miles env w u)
unfolding checkpoint_miles current_miles session_miles
checkpoint_miles-current_miles env n u w keyed here =
    let name = keyed n u here in
    let s =
      checkpoints-Seen env n (u.miles +ℤ in_flight_miles env u) (names w.logged_in) w keyed
        (record { user = u; here = here; username = name; total_is = refl }) in
    (
      s.user,
      s.here,
      current_of env (checkpoint_miles env w) n s.user s.username s.here
          ∙ s.total_is
          ∙ sym (current_of env w n u name here),
    )

in_flight_since :
    (env later : Env) (u : User)
    → ltb_ℤ (pos 0) (in_flight_miles env u) ≡ true
    → let d = in_flight_miles env u in
      let since = session_total later u -ℤ session_total env u in
      in_flight_miles later
        (record u { miles = u.miles +ℤ d; miles_checkpointed = u.miles_checkpointed +ℤ d })
      ≡ (if ltb_ℤ since (pos 0) then pos 0 else since)
unfolding in_flight_miles
in_flight_since env later u h =
    let d = in_flight_miles env u in
    ap (λ x. if ltb_ℤ x (pos 0) then pos 0 else x)
      (ap (λ t. t -ℤ (u.miles_checkpointed +ℤ d))
          (session_total_banked later u (u.miles +ℤ d) (u.miles_checkpointed +ℤ d))
        ∙ ap (λ t. session_total later u -ℤ t) (in_flight_banked env u h))

-- A checkpoint of a viewer with miles in flight, whose score is not stored, leaves the board's
-- scores as they were, and none of those miles in flight: at any later instant the entry has in flight,
-- which is what a checkpoint or a logout adds to the score, only what the session has earned since.
pub checkpoint_user_unscored :
    (env : Env) (n : Name) (u : User) (w : World)
    → find n w.logged_in ≡ some u
    → ltb_ℤ (pos 0) (in_flight_miles env u) ≡ true
    → env.add_ok ≡ false
    → ((checkpoint_user env n w).scores ≡ w.scores)
      × ((u' : User) × (find n (checkpoint_user env n w).logged_in ≡ some u')
          × (in_flight_miles env u' ≡ pos 0)
          × ((later : Env)
              → let since = session_total later u -ℤ session_total env u in
                in_flight_miles later u' ≡ (if ltb_ℤ since (pos 0) then pos 0 else since)))
unfolding checkpoint_user
checkpoint_user_unscored env n live w here h bad =
    let d = in_flight_miles env live in
    let u = record live {
      miles = live.miles +ℤ d;
      miles_checkpointed = live.miles_checkpointed +ℤ d;
    } in
    let x = record w { logged_in = put n u w.logged_in } in
    let y = save env u x in
    rw (checkpoint_user, here, h)
      (
        unscored env live.username d y bad ∙ scores-save env u x,
        (
          u,
          ground (
            arith,
            add_to_score_entries env live.username d y,
            save_entries env u x,
            find-put n n u w.logged_in,
            ==_iff n n,
          ),
          in_flight_none env u (
              in_flight_banked env live h
              ∙ sym
                  (session_total_banked env live (live.miles +ℤ d) (live.miles_checkpointed +ℤ d))),
          λ later. in_flight_since env later live h,
        ),
      )
