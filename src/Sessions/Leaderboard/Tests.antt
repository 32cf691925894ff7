-- ===== src/Sessions/Leaderboard/Tests.antt =====
-- The leaderboard of four viewers, one of them logged in; 9 is the channel's owner.
use tripbot.Base.{◌≡◌, refl, true, false, none, some, List, [], ◌∷◌, ◌==◌, map}
use tripbot.Base.Int.{ℤ, pos, pos_part, ◌+ℤ◌, ◌-ℤ◌}
use tripbot.Base.Maps.{find}
use tripbot.Sessions.{
  User, World, Env, session_total, current_miles, in_flight_miles, duration_to_miles, session_miles,
}
use tripbot.Sessions.Leaderboard.{
  Entry, Format, overlay, insert, rank, to_pairs, init_leaderboard, update_leaderboard,
}
use tripbot.Sessions.Leaderboard.Rank.{IsRanked, at_miles}
use tripbot.Sessions.Leaderboard.Ranked.{AreCurrent, listed, shown, update_leaderboard-IsRanked}

abbrev format : Format
format = record { is_admin = λ n. n == 9; miles_text = λ m. pos_part m ∷ [] }

abbrev here : User
here = record {
  id = 3;
  username = 3;
  miles = pos 100;
  num_visits = 1;
  is_bot = false;
  last_seen = 0;
  logged_in = 10;
  session_extra_miles = pos 0;
  miles_checkpointed = pos 0;
}

abbrev world : World
world = record {
  logged_in = (3, here) ∷ [];
  rows = λ n. none;
  scores = λ month n. pos 0;
  next_id = 1;
  log = [];
}

abbrev env : Env
env = record {
  now = 20;
  month = 11;
  subscriber = λ n. false;
  tier = λ n. 1;
  lookup_ok = true;
  create_ok = true;
  reread_ok = true;
  save_ok = true;
  score_ok = true;
  add_ok = true;
}

abbrev rows : List Entry
rows = (9, pos 900) ∷ (1, pos 300) ∷ (2, pos 200) ∷ (3, pos 100) ∷ []

-- The session of 3 is worth 200, and 3 stays behind 1, who has as many.
overtakes :
    update_leaderboard format env world (some rows) []
    ≡ (1, 300 ∷ []) ∷ (3, 300 ∷ []) ∷ (2, 200 ∷ []) ∷ []
unfolding update_leaderboard to_pairs rank insert overlay find current_miles session_miles
    in_flight_miles session_total duration_to_miles ◌+ℤ◌ ◌-ℤ◌
overtakes = refl

kept_on_error : update_leaderboard format env world none ((1, 300 ∷ []) ∷ []) ≡ (1, 300 ∷ []) ∷ []
unfolding update_leaderboard
kept_on_error = refl

at_start : init_leaderboard format (some rows) ≡ (1, 300 ∷ []) ∷ (2, 200 ∷ []) ∷ (3, 100 ∷ []) ∷ []
unfolding init_leaderboard to_pairs
at_start = refl

update_leaderboard-IsRanked_example :
    (live : List Entry) × (ranked : List Entry) × AreCurrent env world rows live
    × (update_leaderboard format env world (some rows) [] ≡ map (shown format) ranked)
    × IsRanked ranked
    × ((m : ℤ) → at_miles m ranked ≡ at_miles m (listed format live))
update_leaderboard-IsRanked_example = update_leaderboard-IsRanked format env world rows []
