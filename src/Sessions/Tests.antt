-- ===== src/Sessions/Tests.antt =====
-- Sessions of three viewers on concrete clocks, and the theorems at them.
use tripbot.Base.{
  ℕ, ◌+◌, ◌≡◌, ◌==◌, ltb, if◌then◌else◌, refl, true, false, none, some, List, [], ◌∷◌, arith,
}
use tripbot.Base.Int.{ltb_ℤ, pos, negsuc, ◌+ℤ◌, ◌-ℤ◌}
use tripbot.Base.Maps.{find, put, remove}
use tripbot.Sessions.{
  Name, User, Row, World, Env, session_total, current_miles, checkpoint_miles, logout,
  correct_miles, clamp_clawback, find_or_create, close, for_each, checkpoint_user, in_flight_miles,
  duration_to_miles, session_bonus, save, add_to_score, login_if_necessary, login_user,
  give_everyone_miles, login,
}
use tripbot.Sessions.Ledger.{Step, apply, apply_all, IsKeyed}
use tripbot.Sessions.Banked.{gifts_after, Stays}
use tripbot.Sessions.Logout.{session_banks}
use tripbot.Sessions.Checkpoint.{checkpoint_user_unscored, checkpoint_miles-current_miles}
use tripbot.Sessions.Known.{IsKnown, IsNumbered}

-- Name 1 subscribes, and the clock is at `t`.
abbrev at : ℕ → Env
at t = record {
  now = t;
  month = 11;
  subscriber = λ n. n == 1;
  tier = λ n. 1;
  lookup_ok = true;
  create_ok = true;
  reread_ok = true;
  save_ok = true;
  score_ok = true;
  add_ok = true;
}

abbrev down : Env
down = record (at 0) { lookup_ok = false }

abbrev viewer : Name → ℕ → User
viewer n id = record {
  id = id;
  username = n;
  miles = pos 500;
  num_visits = 3;
  is_bot = false;
  last_seen = 100;
  logged_in = 100;
  session_extra_miles = pos 0;
  miles_checkpointed = pos 0;
}

abbrev row : ℕ → Row
row id = record { id = id; miles = pos 500; num_visits = 3; is_bot = false; last_seen = 100 }

-- Names 1 and 2 are here, and 3 has a row.
abbrev world : World
world = record {
  logged_in = (1, viewer 1 11) ∷ (2, viewer 2 12) ∷ [];
  rows = λ n. if n == 0 then none else (if ltb n 4 then some (row (10 + n)) else none);
  scores = λ month n. pos 7;
  next_id = 20;
  log = [];
}

world-IsKeyed : IsKeyed world
unfolding find
world-IsKeyed m u h = ground (arith, h)

world-IsKnown : IsKnown world
unfolding find
world-IsKnown m u h = ground (arith, h)

find_1 : find 1 world.logged_in ≡ some (viewer 1 11)
unfolding find
find_1 = refl

find_3 : find 3 world.logged_in ≡ none
unfolding find
find_3 = refl

world-IsNumbered : IsNumbered world
world-IsNumbered = (refl, λ m r h. ground (arith, h))

stored_1 : ¬ (world.rows 1 ≡ none)
stored_1 h = ground (arith, h)

abbrev visit : List Step
visit =
    Step.checkpoint (at 160)
    ∷ Step.gift (pos 30)
    ∷ Step.join (at 170) 3
    ∷ Step.leave (at 180) 2
    ∷ Step.checkpoint (at 190)
    ∷ []

visit_banked : gifts_after (pos 0) visit ≡ pos 30
unfolding gifts_after ◌+ℤ◌
visit_banked = refl

session_banks_example :
    let w' = logout (at 200) 1 (apply_all visit world) in
    ((r : Row) × (w'.rows 1 ≡ some r)
      × (r.miles ≡ pos 500 +ℤ gifts_after (pos 0) visit +ℤ session_total (at 200) (viewer 1 11)))
    × (w'.scores 11 1 ≡ pos 7 +ℤ session_total (at 200) (viewer 1 11))
unfolding Stays
session_banks_example =
    session_banks 1 (viewer 1 11) (at 200) visit world world-IsKeyed find_1 refl stored_1 refl refl
      (
        record {
          subscribed = refl;
          tiered = refl;
          same_month = refl;
          earlier = omega arith;
          scored = refl;
        },
        (
          tt,
          (
            tt,
            (
              refl,
              (
                record {
                  subscribed = refl;
                  tiered = refl;
                  same_month = refl;
                  earlier = omega arith;
                  scored = refl;
                },
                tt,
              ),
            ),
          ),
        ),
      )
      refl refl

-- The subscriber's 100 nanoseconds: 2000 units and a bonus of 100.
banked_run : (logout (at 200) 1 (apply_all visit world)).scores 11 1 ≡ pos 2107
unfolding logout close apply_all apply checkpoint_miles for_each checkpoint_user in_flight_miles
    session_total duration_to_miles session_bonus save add_to_score login_if_necessary login
    login_user find_or_create give_everyone_miles find put remove ◌+ℤ◌ ◌-ℤ◌
banked_run = refl

checkpoint_miles-current_miles_example :
    (u' : User) × (find 1 (checkpoint_miles (at 160) world).logged_in ≡ some u')
    × (current_miles (at 160) (checkpoint_miles (at 160) world) u'
        ≡ current_miles (at 160) world (viewer 1 11))
checkpoint_miles-current_miles_example =
    checkpoint_miles-current_miles (at 160) 1 (viewer 1 11) world world-IsKeyed find_1

-- The scores' writes fail.
abbrev unscored_env : Env
unscored_env = record (at 160) { add_ok = false }

in_flight : ltb_ℤ (pos 0) (in_flight_miles unscored_env (viewer 1 11)) ≡ true
unfolding in_flight_miles session_total duration_to_miles session_bonus ◌+ℤ◌ ◌-ℤ◌
in_flight = refl

checkpoint_user_unscored_example :
    ((checkpoint_user unscored_env 1 world).scores ≡ world.scores)
    × ((u' : User) × (find 1 (checkpoint_user unscored_env 1 world).logged_in ≡ some u')
        × (in_flight_miles unscored_env u' ≡ pos 0)
        × ((later : Env)
            → let since =
                session_total later (viewer 1 11) -ℤ session_total unscored_env (viewer 1 11) in
              in_flight_miles later u' ≡ (if ltb_ℤ since (pos 0) then pos 0 else since)))
checkpoint_user_unscored_example =
    checkpoint_user_unscored unscored_env 1 (viewer 1 11) world find_1 in_flight refl

corrected : (correct_miles (at 160) 1 (negsuc 599) world).1 ≡ some (pos 0, negsuc 499)
unfolding correct_miles clamp_clawback find ◌+ℤ◌ ◌-ℤ◌
corrected = refl

not_found : (correct_miles down 3 (pos 5) world).1 ≡ none
unfolding correct_miles find find_or_create
not_found = refl
