-- ===== src/Messages/Daily.antt =====
-- The daily limit on gated commands.
use tripbot.Base.{
  ◌≡◌, refl, ◌∙◌, sym, ap, subst, inl, inr, ◌≤◌, ℕ, ◌+◌, Bool, true, false, ◌==◌, ==_iff, Option,
  none, some, List, [], ◌∷◌, arith, Bool-cases, Option-cases, if◌then◌else◌, Text,
}
use tripbot.Base.Maps.{find, put, remove, find-put, find-remove}
use tripbot.Clock.{Time}
use tripbot.Messages.{
  Name, User, World, Env, Act, guess, reveal, gated, talk, ran, refused_follow, Message, Step, say,
  logout, jump, login, login_if_necessary, stamp_id, mirror, on_live, change,
  record_platform_user_id, chat_user, has_command_available, ran_today, last_of, day, perform,
  handle_message, step, run,
}

-- What a step leaves of the last gated command of a viewer's entry.
abbrev last_cmd_of : Name → World → Option Time
last_cmd_of n w = elim (find n w.logged_in) [ none ↦ none | some u ↦ some u.last_cmd ]

-- The viewer has a session, and its last gated command is no earlier than `at`.
abbrev IsLate : ℕ → Time → Type 0
IsLate at none = ⊥
IsLate at (some t) = at ≤ t

abbrev Held : ℕ → Option User → Type 0
Held at none = ⊥
Held at (some u) = IsLate at u.last_cmd

abbrev HeldIn : ℕ → Name → World → Type 0
HeldIn at n w = Held at (find n w.logged_in)

put-Held :
    (at : ℕ) (n name : Name) (u : User) (m : List (Name × User))
    → Held at (find n m)
    → (name ≡ n → IsLate at u.last_cmd)
    → Held at (find n (put name u m))
put-Held at n name u m h late = elim (Bool-cases (name == n)) [
  | inl same ↦ rw (find-put name n u m, same) (late ((==_iff name n).0 same))
  | inr other ↦ rw (find-put name n u m, other) h
]

on_live-HeldIn :
    (at : ℕ) (n : Name) (f : User → User) (name : Name) (w : World)
    → ((u : User) → IsLate at u.last_cmd → IsLate at (f u).last_cmd)
    → HeldIn at n w
    → HeldIn at n (on_live f name w)
on_live-HeldIn at n f name w keeps h = elim (Option-cases (find name w.logged_in)) [
  | inl away ↦ rw (change, away) h
  | inr (live, here) ↦
      rw (change, here)
        (put-Held at n name (f live) w.logged_in h
          λ same. keeps live (subst (Held at) (ap (λ k. find k w.logged_in) (sym same) ∙ here) h))
]

login-HeldIn :
    (at : ℕ) (n : Name) (env : Env) (name : Name) (w : World)
    → HeldIn at n w
    → HeldIn at n (login_if_necessary env name w).1
unfolding login_if_necessary login
login-HeldIn at n env name w h = elim (Option-cases (find name w.logged_in)) [
  | inr (live, here) ↦ rw (login_if_necessary, here) h
  | inl away ↦ elim (Option-cases env.row) [
    | inl missing ↦ rw (login_if_necessary, away, login, missing) h
    | inr (id, there) ↦ elim (Bool-cases (id == 0)) [
      | inl zero' ↦ rw (login_if_necessary, away, login, there, zero') h
      | inr real ↦
          rw (login_if_necessary, away, login, there, real)
            (put-Held at n name _ w.logged_in h
              λ same. absurd (subst (Held at) (ap (λ k. find k w.logged_in) (sym same) ∙ away) h))
    ]
  ]
]

chat_user-HeldIn :
    (at : ℕ) (n : Name) (env : Env) (name : Name) (t : Text) (w : World)
    → HeldIn at n w
    → HeldIn at n (chat_user env name t w).1
unfolding chat_user record_platform_user_id
chat_user-HeldIn at n env name t w h = elim (Bool-cases env.persists) [
  | inr gateway ↦ rw (chat_user, gateway) h
  | inl persists ↦
      let u = (login_if_necessary env name w).0 in
      let w' = (login_if_necessary env name w).1 in
      rw (chat_user, persists)
        (on_live-HeldIn at n (mirror (stamp_id env u t w'.rows).0) name
          (record w' { rows = (stamp_id env u t w'.rows).1 }) (λ v k. k)
          (login-HeldIn at n env name w h))
]

has_command_available-HeldIn :
    (at : ℕ) (n : Name) (env : Env) (name : Name) (u : User) (w : World)
    → at ≤ env.checked_at
    → HeldIn at n w
    → HeldIn at n (has_command_available env name u w).2
unfolding has_command_available
has_command_available-HeldIn at n env name u w le h = elim (Bool-cases env.follower) [
  | inl follows ↦ rw (has_command_available, follows) h
  | inr other ↦ elim (Bool-cases (ran_today (last_of (find name w.logged_in) u) env.checked_at)) [
    | inl today ↦ rw (has_command_available, other, today) h
    | inr due ↦
        rw (has_command_available, other, due)
          (on_live-HeldIn at n (λ v. record v { last_cmd = some env.checked_at }) name w (λ v k. le)
            h)
  ]
]

perform-HeldIn :
    (at : ℕ) (n : Name) (env : Env) (name : Name) (act : Act) (u : User) (w : World)
    → at ≤ env.checked_at
    → HeldIn at n w
    → HeldIn at n (perform env name act u w).2
unfolding perform
perform-HeldIn at n env name guess u w le h = h
perform-HeldIn at n env name reveal u w le h = h
perform-HeldIn at n env name gated u w le h = has_command_available-HeldIn at n env name u w le h
perform-HeldIn at n env name talk u w le h = h

-- No logout of the viewer among the steps, and no message is checked before `at`.
abbrev pub IsStay : ℕ → Name → List Step → Type 0
IsStay at n [] = Unit
IsStay at n (say m ∷ ss) = (at ≤ m.env.checked_at) × IsStay at n ss
IsStay at n (logout name ∷ ss) = ((name == n) ≡ false) × IsStay at n ss
IsStay at n (jump now ∷ ss) = IsStay at n ss

run-HeldIn :
    (at : ℕ) (n : Name) (ss : List Step) (w : World)
    → IsStay at n ss
    → HeldIn at n w
    → HeldIn at n (run ss w)
unfolding run step handle_message
run-HeldIn at n [] w stay h = h
run-HeldIn at n (say m ∷ ss) w stay h =
    let u = (chat_user m.env m.name m.user_id w).0 in
    let w' = (chat_user m.env m.name m.user_id w).1 in
    run-HeldIn at n ss (perform m.env m.name m.act u w').2 stay.1 (
      perform-HeldIn at n m.env m.name m.act u w' stay.0
        (chat_user-HeldIn at n m.env m.name m.user_id w h))
run-HeldIn at n (logout name ∷ ss) w stay h =
    run-HeldIn at n ss (record w { logged_in = remove name w.logged_in }) stay.1
      (rw (find-remove name n w.logged_in, stay.0) h)
run-HeldIn at n (jump now ∷ ss) w stay h =
    run-HeldIn at n ss (record w { last_timewarp = some now }) stay h

find-on_live :
    (f : User → User) (n : Name) (u : User) (w : World)
    → find n w.logged_in ≡ some u
    → find n (on_live f n w).logged_in ≡ some (f u)
find-on_live f n u w here =
    rw (change, here, find-put n n (f u) w.logged_in) (ground (arith, ==_iff n n))

granted-HeldIn :
    (env : Env) (n : Name) (u live : User) (w : World)
    → env.follower ≡ false
    → (has_command_available env n u w).0 ≡ true
    → find n (has_command_available env n u w).2.logged_in ≡ some live
    → HeldIn env.checked_at n (has_command_available env n u w).2
unfolding has_command_available
granted-HeldIn env n u live w other ok kept =
    elim (Bool-cases (ran_today (last_of (find n w.logged_in) u) env.checked_at)) [
      | inl today ↦ absurd (ground (arith, other, today, ok))
      | inr due ↦ elim (Option-cases (find n w.logged_in)) [
        | inl away ↦ absurd (ground (arith, other, due, kept, away))
        | inr (before', here) ↦
            let stamped = λ (v : User). record v { last_cmd = some env.checked_at } in
            rw (has_command_available, other, due)
              (subst (Held env.checked_at) (sym (find-on_live stamped n before' w here))
                (omega arith))
      ]
    ]

refused-HeldIn :
    (at : ℕ) (env : Env) (n : Name) (u : User) (w : World)
    → env.follower ≡ false
    → env.checked_at ≤ at + day
    → HeldIn at n w
    → (has_command_available env n u w).0 ≡ false
unfolding has_command_available
refused-HeldIn at env n u w other soon h = elim (Option-cases (find n w.logged_in)) [
  | inl away ↦ absurd (subst (Held at) away h)
  | inr (live, here) ↦
      let late : IsLate at live.last_cmd = subst (Held at) here h in
      elim (Option-cases live.last_cmd) [
        | inl never ↦ absurd (subst (IsLate at) never late)
        | inr (t, stamped) ↦
            let le : at ≤ t = subst (IsLate at) stamped late in
            rw (other, here, stamped) (ground (arith, le, soon))
      ]
]

-- A gated command asks `HasCommandAvailable`.
perform_gated :
    (env : Env) (name : Name) (act : Act) (u : User) (w : World)
    → act ≡ gated
    → ((perform env name act u w).1
        ≡ (if (has_command_available env name u w).0 then ran else refused_follow))
      × ((perform env name act u w).2 ≡ (has_command_available env name u w).2)
unfolding perform
perform_gated env name act u w e = (rw (e, perform) refl, rw (e, perform) refl)

granted_true : (b : Bool) → (if b then ran else refused_follow) ≡ ran → b ≡ true
granted_true b h = ground (arith, h)

-- Two gated commands of a viewer who is no follower and stays in the session, the first one granted,
-- the second checked within 24 hours of it: the second is refused, whatever is said in between, by
-- this viewer or others. No message in between is checked before the first.
pub daily_limit :
    (w : World) (g m : Message) (ss : List Step) (live : User)
    → g.act ≡ gated
    → m.act ≡ gated
    → m.name ≡ g.name
    → g.env.follower ≡ false
    → m.env.follower ≡ false
    → (handle_message g w).0 ≡ ran
    → find g.name (handle_message g w).1.logged_in ≡ some live
    → IsStay g.env.checked_at g.name ss
    → m.env.checked_at ≤ g.env.checked_at + day
    → (handle_message m (run ss (handle_message g w).1)).0 ≡ refused_follow
unfolding handle_message
daily_limit w g m ss live is_gated is_gated' same other other' granted kept stay soon =
    let u = (chat_user g.env g.name g.user_id w).0 in
    let w' = (chat_user g.env g.name g.user_id w).1 in
    let (answer, after) = perform_gated g.env g.name g.act u w' is_gated in
    let held : HeldIn g.env.checked_at g.name (handle_message g w).1 =
      subst (HeldIn g.env.checked_at g.name) (sym after) (
        granted-HeldIn g.env g.name u live w' other (granted_true _ (sym answer ∙ granted))
          (subst (λ (v : World). find g.name v.logged_in ≡ some live) after kept)) in
    let later = run ss (handle_message g w).1 in
    let held' =
      chat_user-HeldIn g.env.checked_at g.name m.env m.name m.user_id later
        (run-HeldIn g.env.checked_at g.name ss (handle_message g w).1 stay held) in
    let v = (chat_user m.env m.name m.user_id later).0 in
    let later' = (chat_user m.env m.name m.user_id later).1 in
    (perform_gated m.env m.name m.act v later' is_gated').0
    ∙ ap (λ b. if b then ran else refused_follow)
        (refused-HeldIn g.env.checked_at m.env m.name v later' other' soon
          (subst (λ k. HeldIn g.env.checked_at k later') (sym same) held'))
