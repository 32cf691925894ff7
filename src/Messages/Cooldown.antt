-- ===== src/Messages/Cooldown.antt =====
-- The guess cooldown: what a reveal of the location changes for the guesses after it.
use tripbot.Base.{
  ◌≡◌, refl, sym, subst, inl, inr, ◌≤◌, ◌<◌, ℕ, ◌+◌, false, ◌==◌, some, List, [], ◌∷◌, ◌++◌, arith,
  Bool-cases, Option-cases, Text,
}
use tripbot.Base.Maps.{find}
use tripbot.Messages.{
  Name, User, World, Env, Act, guess, reveal, gated, talk, ran, Message, Step, say, logout, jump,
  login, login_if_necessary, stamp_id, mirror, record_platform_user_id, chat_user,
  has_command_available, has_guess_available, cools_down, ran_today, last_of, before,
  guess_cooldown, perform, handle_message, step, run,
}
use tripbot.Messages.Live.{AllLive, put-AllLive, on_live-AllLive, remove-AllLive}

-- The last reveal, as kept, no longer holds a guess back.
abbrev Rested : ℕ → User → Type 0
Rested now u = cools_down u.last_location now ≡ false

Rested-later : (now later : ℕ) (u : User) → now ≤ later → Rested now u → Rested later u
Rested-later now later u le h = ground (arith, le, h)

abbrev AllRested : ℕ → World → Type 0
AllRested now w = AllLive (λ n. Rested now) w.logged_in

login-AllRested :
    (now : ℕ) (env : Env) (name : Name) (w : World)
    → env.day_before + guess_cooldown ≤ now
    → AllRested now w
    → Rested now (login env name w).0 × AllRested now (login env name w).1
unfolding login
login-AllRested now env name w slept all = elim (Option-cases env.row) [
  | inl missing ↦ rw missing (refl, all)
  | inr (id, there) ↦ elim (Bool-cases (id == 0)) [
    | inl zero' ↦ rw (there, zero') (refl, all)
    | inr real ↦
        let fresh : cools_down (some env.day_before) now ≡ false = ground (arith, slept) in
        rw (there, real) (fresh, put-AllLive (λ n. Rested now) name _ w.logged_in all fresh)
  ]
]

login_if_necessary-AllRested :
    (now : ℕ) (env : Env) (name : Name) (w : World)
    → env.day_before + guess_cooldown ≤ now
    → AllRested now w
    → Rested now (login_if_necessary env name w).0 × AllRested now (login_if_necessary env name w).1
unfolding login_if_necessary
login_if_necessary-AllRested now env name w slept all =
    elim (Option-cases (find name w.logged_in)) [
      | inl away ↦ rw (login_if_necessary, away) (login-AllRested now env name w slept all)
      | inr (live, here) ↦ rw (login_if_necessary, here) (all name live here, all)
    ]

last_location-stamp_id :
    (env : Env) (u : User) (t : Text) (rows : List (ℕ × Text))
    → (stamp_id env u t rows).0.last_location ≡ u.last_location
unfolding stamp_id
last_location-stamp_id env u t rows = ground arith

record_platform_user_id-AllRested :
    (now : ℕ) (env : Env) (name : Name) (u : User) (t : Text) (w : World)
    → Rested now u
    → AllRested now w
    → Rested now (record_platform_user_id env name u t w).0
      × AllRested now (record_platform_user_id env name u t w).1
unfolding record_platform_user_id
record_platform_user_id-AllRested now env name u t w h all = (
  subst (λ l. cools_down l now ≡ false) (sym (last_location-stamp_id env u t w.rows)) h,
  on_live-AllLive (λ n. Rested now) (mirror (stamp_id env u t w.rows).0) name
      (record w { rows = (stamp_id env u t w.rows).1 }) (λ v k. k) all,
)

chat_user-AllRested :
    (now : ℕ) (env : Env) (name : Name) (t : Text) (w : World)
    → env.day_before + guess_cooldown ≤ now
    → AllRested now w
    → Rested now (chat_user env name t w).0 × AllRested now (chat_user env name t w).1
unfolding chat_user
chat_user-AllRested now env name t w slept all = elim (Bool-cases env.persists) [
  | inr gateway ↦ rw (chat_user, gateway) (refl, all)
  | inl persists ↦
      let (h, all') = login_if_necessary-AllRested now env name w slept all in
      rw (chat_user, persists)
        (record_platform_user_id-AllRested now env name (login_if_necessary env name w).0 t
          (login_if_necessary env name w).1 h all')
]

has_command_available-AllRested :
    (now : ℕ) (env : Env) (name : Name) (u : User) (w : World)
    → AllRested now w
    → AllRested now (has_command_available env name u w).2
unfolding has_command_available
has_command_available-AllRested now env name u w all = elim (Bool-cases env.follower) [
  | inl follows ↦ rw (has_command_available, follows) all
  | inr other ↦ elim (Bool-cases (ran_today (last_of (find name w.logged_in) u) env.checked_at)) [
    | inl today ↦ rw (has_command_available, other, today) all
    | inr due ↦
        rw (has_command_available, other, due)
          (on_live-AllLive (λ n. Rested now) (λ v. record v { last_cmd = some env.checked_at }) name
            w (λ v k. k) all)
  ]
]

perform-AllRested :
    (now : ℕ) (env : Env) (name : Name) (act : Act) (u : User) (w : World)
    → AllRested now w
    → AllRested now (perform env name act u w).2
unfolding perform
perform-AllRested now env name guess u w all = all
perform-AllRested now env name reveal u w all = all
perform-AllRested now env name gated u w all = has_command_available-AllRested now env name u w all
perform-AllRested now env name talk u w all = all

-- The clock runs forwards from `now` on, and a login sets the last reveal back by a cooldown or more.
abbrev pub IsTimed : ℕ → List Step → Type 0
IsTimed now [] = Unit
IsTimed now (say m ∷ ss) =
    (m.env.day_before + guess_cooldown ≤ m.env.login_at)
    × (now ≤ m.env.login_at)
    × (m.env.login_at ≤ m.env.checked_at)
    × IsTimed m.env.checked_at ss
IsTimed now (s ∷ ss) = IsTimed now ss

AllRested-later : (now later : ℕ) (w : World) → now ≤ later → AllRested now w → AllRested later w
AllRested-later now later w le all n u e = Rested-later now later u le (all n u e)

message-AllRested :
    (now : ℕ) (m : Message) (w : World)
    → m.env.day_before + guess_cooldown ≤ m.env.login_at
    → now ≤ m.env.login_at
    → m.env.login_at ≤ m.env.checked_at
    → AllRested now w
    → Rested m.env.checked_at (chat_user m.env m.name m.user_id w).0
      × AllRested m.env.checked_at (handle_message m w).1
unfolding handle_message
message-AllRested now m w slept le le' all =
    let at = m.env.checked_at in
    let (h, all') =
      chat_user-AllRested at m.env m.name m.user_id w (omega (arith, slept, le'))
        (AllRested-later now at w (omega (arith, le, le')) all) in
    (
      h,
      perform-AllRested at m.env m.name m.act (chat_user m.env m.name m.user_id w).0
          (chat_user m.env m.name m.user_id w).1 all',
    )

run-AllRested :
    (now : ℕ) (ss : List Step) (m : Message) (w : World)
    → IsTimed now (ss ++ say m ∷ [])
    → AllRested now w
    → Rested m.env.checked_at (chat_user m.env m.name m.user_id (run ss w)).0
unfolding run step
run-AllRested now [] m w timed all = (message-AllRested now m w timed.0 timed.1 timed.2 all).0
run-AllRested now (say k ∷ ss) m w timed all =
    run-AllRested k.env.checked_at ss m (step (say k) w) timed.3
      (message-AllRested now k w timed.0 timed.1 timed.2 all).1
run-AllRested now (logout name ∷ ss) m w timed all =
    run-AllRested now ss m (step (logout name) w) timed
      (remove-AllLive (λ n. Rested now) name w.logged_in all)
run-AllRested now (jump at ∷ ss) m w timed all = run-AllRested now ss m (step (jump at) w) timed all

no_sessions-AllRested : (w : World) → w.logged_in ≡ [] → AllRested 0 w
unfolding find
no_sessions-AllRested w e n u here = ground (arith, e, here)

-- The copy that a message has worked on when it is done.
abbrev pub copy_after : Message → World → User
copy_after m w =
    let (u, w', wrote) = chat_user m.env m.name m.user_id w in (perform m.env m.name m.act u w').0

-- A guess less than three minutes after a naming of the location, by the same viewer or another, with
-- no jump since the naming: by the user that the naming stamped it would be refused, and it is
-- allowed, whatever happened before. The clock runs forwards, the bot starts without sessions, and a login sets the
-- last naming back by three minutes or more.
pub guess_after_reveal :
    (w : World) (ss : List Step) (r m : Message)
    → w.logged_in ≡ []
    → IsTimed 0 ((ss ++ say r ∷ []) ++ say m ∷ [])
    → r.act ≡ reveal
    → m.act ≡ guess
    → m.env.checked_at < r.env.stamped_at + guess_cooldown
    → before (some r.env.stamped_at) (run (ss ++ say r ∷ []) w).last_timewarp ≡ false
    → (has_guess_available
          (copy_after r (run ss w))
          (run (ss ++ say r ∷ []) w).last_timewarp
          m.env.checked_at
        ≡ false)
      × ((handle_message m (run (ss ++ say r ∷ []) w)).0 ≡ ran)
unfolding handle_message has_guess_available
guess_after_reveal w ss r m none' timed reveals guesses soon no_jump =
    let w' = run (ss ++ say r ∷ []) w in
    let rested = run-AllRested 0 (ss ++ say r ∷ []) m w timed (no_sessions-AllRested w none') in
    (
      rw (reveals, perform) (ground (arith, soon, no_jump)),
      rw (guesses, perform) (ground (arith, rested)),
    )
