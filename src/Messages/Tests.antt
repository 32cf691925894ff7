-- ===== src/Messages/Tests.antt =====
-- Messages of two viewers.
use tripbot.Base.{
  ◌≡◌, refl, inr, ◌+◌, ◌-◌, ◌*◌, ℕ, true, false, none, some, [], ◌∷◌, arith, Text, codes,
}
use tripbot.Base.Maps.{find, put}
use tripbot.Messages.{
  Name, World, Env, Act, guess, reveal, gated, talk, ran, refused_follow, Message, say, run,
  handle_message, day, has_guess_available, row_text,
}
use tripbot.Messages.Cooldown.{guess_after_reveal, copy_after}
use tripbot.Messages.Daily.{daily_limit}
use tripbot.Messages.Ids.{session_ids}

-- A second, in nanoseconds.
abbrev second : ℕ
second = 1000000000

-- Viewer 1 has the row 11 and viewer 2 the row 12; the message arrives at `t`.
abbrev at : Name → ℕ → Env
at name t = record {
  persists = true;
  login_at = t;
  day_before = t - day;
  checked_at = t + 1;
  stamped_at = t + 1;
  row = some (10 + name);
  write_ok = true;
  follower = false;
}

abbrev says : Name → ℕ → Text → Act → Message
says name t id act = record { env = at name t; name = name; user_id = id; act = act }

abbrev start : World
start = record { logged_in = []; rows = []; last_timewarp = none }

abbrev now : ℕ
now = 2 * day

-- Viewer 2 has taken viewer 1's id over, so it is not written.
contested :
    (run (say (says 1 now (codes "77") talk) ∷ say (says 2 now (codes "77") talk) ∷ []) start).rows
    ≡ (11, codes "77") ∷ (12, []) ∷ []
unfolding run find put
contested = refl

-- The limit holds for a day, and a day later it is over.
over_a_day :
    (handle_message
      (says 1 (now + day + 1) [] gated)
      (run (say (says 1 now [] talk) ∷ say (says 1 now [] gated) ∷ []) start)).0
    ≡ ran
unfolding run handle_message find put
over_a_day = refl

guess_after_reveal_example :
    let r = says 1 (now + second) [] reveal in
    let m = says 1 (now + 2 * second) [] guess in
    let w = run (say (says 2 now [] talk) ∷ say r ∷ []) start in
    (has_guess_available
        (copy_after r (run (say (says 2 now [] talk) ∷ []) start))
        w.last_timewarp
        (now + 2 * second + 1)
      ≡ false)
    × ((handle_message m w).0 ≡ ran)
unfolding run find put
guess_after_reveal_example =
    guess_after_reveal start (say (says 2 now [] talk) ∷ []) (says 1 (now + second) [] reveal)
      (says 1 (now + 2 * second) [] guess) refl (omega arith) refl refl (omega arith) refl

session_ids_example :
    let ss = say (says 1 now (codes "77") talk) ∷ say (says 2 now (codes "77") talk) ∷ [] in
    (12 ≡ 10 + 2) × (◌≡◌ {A = Text} [] (row_text 12 (run ss start).rows))
unfolding run find put
session_ids_example =
    session_ids (λ n. 10 + n) (λ m n h. ground (arith, h))
      (say (says 1 now (codes "77") talk) ∷ say (says 2 now (codes "77") talk) ∷ []) start refl
      (inr refl, (inr refl, tt)) 2
      (record {
        id = 12;
        platform_user_id = [];
        taken = true;
        last_cmd = some day;
        last_location = some day;
      })
      refl

daily_limit_example :
    let w = (handle_message (says 1 now [] gated) start).1 in
    (handle_message (says 1 (now + day) [] gated) (run (say (says 2 now [] gated) ∷ []) w)).0
    ≡ refused_follow
unfolding handle_message find put
daily_limit_example =
    daily_limit start (says 1 now [] gated) (says 1 (now + day) [] gated)
      (say (says 2 now [] gated) ∷ [])
      (record {
        id = 11;
        platform_user_id = [];
        taken = false;
        last_cmd = some (now + 1);
        last_location = some day;
      })
      refl refl refl refl refl refl refl (omega arith) (omega arith)
