-- ===== src/Messages/Ids.antt =====
-- The platform user id of a chatter: what the session claims, and when it is written.
use tripbot.Base.{
  ◌≡◌, refl, ◌∙◌, sym, ap, subst, inl, inr, ◌⊎◌, ℕ, false, ◌==◌, ==_iff, none, some, List, [], ◌∷◌,
  arith, Bool-cases, Option-cases, if◌then◌else◌, Text,
}
use tripbot.Base.Maps.{find, put, find-put}
use tripbot.Messages.{
  Name, User, World, Env, Act, guess, reveal, gated, talk, Message, Step, say, logout, jump,
  or_empty, row_text, held_by_other, needs_stamp, login, login_if_necessary, stamp_id, mirror,
  change, record_platform_user_id, chat_user, has_command_available, ran_today, last_of, perform,
  handle_message, step, run, no_row,
}
use tripbot.Messages.Live.{AllLive, put-AllLive, on_live-AllLive, on_live-change, remove-AllLive}

row_text-put :
    (i j : ℕ) (t : Text) (rows : List (ℕ × Text))
    → row_text j (put i t rows) ≡ (if i == j then t else row_text j rows)
row_text-put i j t rows = ap or_empty (find-put i j t rows) ∙ ground arith

row_text-put_self :
    (i j : ℕ) (rows : List (ℕ × Text)) → row_text j (put i (row_text i rows) rows) ≡ row_text j rows
row_text-put_self i j rows = elim (Bool-cases (i == j)) [
  | inl same ↦
      row_text-put i j (row_text i rows) rows
      ∙ rw same (ap (λ k. row_text k rows) ((==_iff i j).0 same))
  | inr other ↦ row_text-put i j (row_text i rows) rows ∙ rw other refl
]

-- What a message does to the sessions after the sender is resolved leaves the ids alone.
module _ (P : Name → User → Type 0) where
  perform-AllLive :
      (env : Env) (name : Name) (act : Act) (u : User) (w : World)
      → ((v : User) → P name v → P name (record v { last_cmd = some env.checked_at }))
      → AllLive P w.logged_in
      → AllLive P (perform env name act u w).2.logged_in
  unfolding perform has_command_available
  perform-AllLive env name guess u w keeps all = all
  perform-AllLive env name reveal u w keeps all = all
  perform-AllLive env name talk u w keeps all = all
  perform-AllLive env name gated u w keeps all = elim (Bool-cases env.follower) [
    | inl follows ↦ rw (has_command_available, follows) all
    | inr other ↦ elim (Bool-cases (ran_today (last_of (find name w.logged_in) u) env.checked_at)) [
      | inl today ↦ rw (has_command_available, other, today) all
      | inr due ↦
          rw (has_command_available, other, due)
            (on_live-AllLive P (λ v. record v { last_cmd = some env.checked_at }) name w keeps all)
    ]
  ]

rows-perform :
    (env : Env) (name : Name) (act : Act) (u : User) (w : World)
    → (perform env name act u w).2.rows ≡ w.rows
unfolding perform has_command_available
rows-perform env name guess u w = refl
rows-perform env name reveal u w = refl
rows-perform env name gated u w = ground arith
rows-perform env name talk u w = refl

stamp_no_row :
    (env : Env) (t : Text) (rows : List (ℕ × Text))
    → stamp_id env no_row t rows ≡ (no_row, rows, false)
unfolding stamp_id
stamp_no_row env t rows = ground arith

said_lem : (m k : Message) → say m ≡ say k → m ≡ k
said_lem m k e = cc

module _ (row_of : Name → ℕ)
    (apart : (m n : Name) → (m == n) ≡ false → (row_of m == row_of n) ≡ false) where
  -- The session's entry is of the viewer's row, and claims the id that the row has.
  abbrev Claims : List (ℕ × Text) → Name → User → Type 0
  Claims rows n u = (u.id ≡ row_of n) × (u.platform_user_id ≡ row_text (row_of n) rows)

  put-Claims :
      (name : Name) (t : Text) (rows : List (ℕ × Text)) (n : Name) (u : User)
      → (name == n) ≡ false
      → Claims rows n u
      → Claims (put (row_of name) t rows) n u
  put-Claims name t rows n u other (id, text) =
      (id, text ∙ sym (row_text-put (row_of name) (row_of n) t rows ∙ rw (apart name n other) refl))

  -- The stamp keeps the claim of the copy.
  stamp_id-Claims :
      (env : Env) (name : Name) (u : User) (t : Text) (rows : List (ℕ × Text))
      → Claims rows name u
      → Claims (stamp_id env u t rows).1 name (stamp_id env u t rows).0
  unfolding stamp_id
  stamp_id-Claims env name u t rows (id, text) = elim (Bool-cases (needs_stamp u t)) [
    | inr no' ↦ rw (stamp_id, no') (id, text)
    | inl wants ↦ elim (Bool-cases env.write_ok) [
      | inr failed ↦ rw (stamp_id, wants, failed) (id, text)
      | inl served ↦ elim (Bool-cases (held_by_other u.id t rows)) [
        | inl held ↦ rw (stamp_id, wants, served, held) (id, text)
        | inr free ↦
            rw (stamp_id, wants, served, free)
              (
                id,
                rw id (
                    sym (
                      row_text-put (row_of name) (row_of name) t rows
                      ∙ ground (arith, ==_iff (row_of name) (row_of name)))),
              )
      ]
    ]
  ]

  -- And that of every other entry.
  stamp_id-others :
      (env : Env) (name : Name) (u : User) (t : Text) (rows : List (ℕ × Text)) (n : Name) (v : User)
      → u.id ≡ row_of name
      → (name == n) ≡ false
      → Claims rows n v
      → Claims (stamp_id env u t rows).1 n v
  unfolding stamp_id
  stamp_id-others env name u t rows n v id other claims = elim (Bool-cases (needs_stamp u t)) [
    | inr no' ↦ rw (stamp_id, no') claims
    | inl wants ↦ elim (Bool-cases env.write_ok) [
      | inr failed ↦ rw (stamp_id, wants, failed) claims
      | inl served ↦ elim (Bool-cases (held_by_other u.id t rows)) [
        | inl held ↦ rw (stamp_id, wants, served, held) claims
        | inr free ↦
            rw (stamp_id, wants, served, free, id) (put-Claims name t rows n v other claims)
      ]
    ]
  ]

  abbrev Agrees : World → Type 0
  Agrees w = AllLive (Claims w.rows) w.logged_in

  record_platform_user_id-Agrees :
      (env : Env) (name : Name) (u : User) (t : Text) (w : World)
      → Claims w.rows name u
      → Agrees w
      → Agrees (record_platform_user_id env name u t w).1
  unfolding record_platform_user_id
  record_platform_user_id-Agrees env name u t w claims all =
      let u' = (stamp_id env u t w.rows).0 in
      let rows' = (stamp_id env u t w.rows).1 in
      on_live-change (Claims w.rows) (Claims rows') (mirror u') name (record w { rows = rows' })
        (λ v (id, text). (id, (stamp_id-Claims env name u t w.rows claims).1))
        (λ n v other. stamp_id-others env name u t w.rows n v claims.0 other) all

  no_row-Agrees :
      (env : Env) (name : Name) (t : Text) (w : World)
      → find name w.logged_in ≡ none
      → Agrees w
      → Agrees (record_platform_user_id env name no_row t w).1
  unfolding record_platform_user_id
  no_row-Agrees env name t w away all = rw (stamp_no_row env t w.rows, change, away) all

  -- FindOrCreate gives the row of the name, or none.
  abbrev pub IsNamed : Message → Type 0
  IsNamed m = (m.env.row ≡ none) ⊎ (m.env.row ≡ some (row_of m.name))

  login-Agrees :
      (m : Message) (w : World)
      → IsNamed m
      → find m.name w.logged_in ≡ none
      → Agrees w
      → Agrees (login m.env m.name w).1
        × ((((login m.env m.name w).0 ≡ no_row) × ((login m.env m.name w).1 ≡ w))
            ⊎ Claims (login m.env m.name w).1.rows m.name (login m.env m.name w).0)
  unfolding login
  login-Agrees m w (inl missing) away all = rw missing (all, inl (refl, refl))
  login-Agrees m w (inr there) away all = elim (Bool-cases (row_of m.name == 0)) [
    | inl zero' ↦ rw (there, zero') (all, inl (refl, refl))
    | inr real ↦
        let id = row_of m.name in
        let rows' = put id (row_text id w.rows) w.rows in
        let own : row_text id rows' ≡ row_text id w.rows = row_text-put_self id id w.rows in
        rw (there, real)
          (
            put-AllLive (Claims rows') m.name _ w.logged_in
                (λ n v here.
                  let (is, text) = all n v here in
                  (is, text ∙ sym (row_text-put_self id (row_of n) w.rows)))
                (refl, sym own),
            inr (refl, sym own),
          )
  ]

  chat_user-Agrees :
      (m : Message) (w : World)
      → IsNamed m
      → Agrees w
      → Agrees (chat_user m.env m.name m.user_id w).1
  unfolding chat_user login_if_necessary
  chat_user-Agrees m w named all = elim (Bool-cases m.env.persists) [
    | inr gateway ↦ rw (chat_user, gateway) all
    | inl persists ↦ elim (Option-cases (find m.name w.logged_in)) [
      | inr (live, here) ↦
          rw (chat_user, persists, login_if_necessary, here)
            (record_platform_user_id-Agrees m.env m.name live m.user_id w (all m.name live here)
              all)
      | inl away ↦
          let (all', how) = login-Agrees m w named away all in
          rw (chat_user, persists, login_if_necessary, away)
            (elim how [
              | inl (none', same) ↦
                  subst
                    (λ u.
                      Agrees
                        (record_platform_user_id m.env m.name u m.user_id
                          (login m.env m.name w).1).1)
                    (sym none')
                    (subst (λ k. Agrees (record_platform_user_id m.env m.name no_row m.user_id k).1)
                      (sym same) (no_row-Agrees m.env m.name m.user_id w away all))
              | inr claims ↦
                  record_platform_user_id-Agrees m.env m.name (login m.env m.name w).0 m.user_id
                    (login m.env m.name w).1 claims all'
            ])
    ]
  ]

  step-Agrees :
      (s : Step) (w : World)
      → ((m : Message) → s ≡ say m → IsNamed m)
      → Agrees w
      → Agrees (step s w)
  unfolding step handle_message
  step-Agrees (say m) w named all =
      let u = (chat_user m.env m.name m.user_id w).0 in
      let w' = (chat_user m.env m.name m.user_id w).1 in
      subst (λ rows. AllLive (Claims rows) (perform m.env m.name m.act u w').2.logged_in)
        (sym (rows-perform m.env m.name m.act u w'))
        (perform-AllLive (Claims w'.rows) m.env m.name m.act u w' (λ v h. h)
          (chat_user-Agrees m w (named m refl) all))
  step-Agrees (logout name) w named all = remove-AllLive (Claims w.rows) name w.logged_in all
  step-Agrees (jump now) w named all = all

  -- Every message's user has the row of the name.
  abbrev pub AllNamed : List Step → Type 0
  AllNamed [] = Unit
  AllNamed (say m ∷ ss) = IsNamed m × AllNamed ss
  AllNamed (s ∷ ss) = AllNamed ss

  run-Agrees : (ss : List Step) (w : World) → AllNamed ss → Agrees w → Agrees (run ss w)
  unfolding run
  run-Agrees [] w named all = all
  run-Agrees (say m ∷ ss) w named all =
      run-Agrees ss (step (say m) w) named.1
        (step-Agrees (say m) w (λ k e. subst IsNamed (said_lem m k e) named.0) all)
  run-Agrees (logout name ∷ ss) w named all =
      run-Agrees ss (step (logout name) w) named (step-Agrees (logout name) w (λ k e. cc) all)
  run-Agrees (jump now ∷ ss) w named all =
      run-Agrees ss (step (jump now) w) named (step-Agrees (jump now) w (λ k e. cc) all)

  -- From a start without sessions, over any messages, logouts and jumps: a session's entry has the
  -- row of its name and claims exactly the platform user id that the users table has for the row, also
  -- where a write of the id failed or the table refused it for belonging to another row. Each name
  -- has a row of its own.
  pub session_ids :
      (ss : List Step) (w : World)
      → w.logged_in ≡ []
      → AllNamed ss
      → (n : Name) (u : User) → find n (run ss w).logged_in ≡ some u
      → (u.id ≡ row_of n) × (u.platform_user_id ≡ row_text (row_of n) (run ss w).rows)
  unfolding find
  session_ids ss w none' named = run-Agrees ss w named (λ n u here. ground (arith, none', here))
