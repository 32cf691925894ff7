-- ===== src/Messages.antt =====
-- pkg/chatbot/handlers.go (HandleMessage, chatUser) with pkg/users/users.go and session.go: who a
-- message is from, and what is kept of them between messages in the session's memory: the time of
-- the last gated command, the time of the last reveal of the location, and the platform's user id.
-- Usernames and row ids are numbers, 0 for a user without a row; texts are the platform's ids. A
-- message carries one act, the part of its command that touches this state.
pub mod Live
pub mod Cooldown
pub mod Daily
pub mod Ids
mod Tests
use tripbot.Base.{
  ℕ, ◌+◌, ◌-◌, ◌*◌, Bool, true, false, not, ◌&&◌, ◌||◌, Option, none, some, List, [], ◌∷◌, ◌==◌,
  ltb, leb, if◌then◌else◌, Text, same_text,
}
use tripbot.Base.Maps.{find, put, remove}
use tripbot.Clock.{Time}

abbrev pub Name : Type 0
Name = ℕ

-- The fields of `users.User` that concern a message. A session's entry and the copy that a message
-- works on are both such a record.
pub record User : Type 0 where
  pub id : ℕ
  pub platform_user_id : Text
  pub taken : Bool
  pub last_cmd : Time
  pub last_location : Time

-- The sessions, the platform user ids of the users table by row, and when the playhead last jumped.
pub record World : Type 0 where
  pub logged_in : List (Name × User)
  pub rows : List (ℕ × Text)
  pub last_timewarp : Time

-- What the outside answers to one message: whether the platform persists users; the clock at a login,
-- and the same hour of the day before; the clock at a check and at a stamp; the row that
-- FindOrCreate gives, if it gives one; whether the database serves the write of an id; and whether
-- the platform lists the sender as a follower.
pub record Env : Type 0 where
  pub persists : Bool
  pub login_at : ℕ
  pub day_before : ℕ
  pub checked_at : ℕ
  pub stamped_at : ℕ
  pub row : Option ℕ
  pub write_ok : Bool
  pub follower : Bool

-- A guess, a reveal of the location (!location and !state), a command that is gated to followers
-- while followerGatingEnabled is set, without which checkAccess does not ask, and any other message.
pub data Act : Type 0 where
  guess reveal gated talk : Act

-- What becomes of the act.
pub data Answer : Type 0 where
  ran : Answer
  refused_cooldown : Answer
  refused_follow : Answer

abbrev pub no_row : User
no_row = record {
  id = 0;
  platform_user_id = [];
  taken = false;
  last_cmd = none;
  last_location = none;
}

-- The platform user id that the users table has for a row; a new row has none.
abbrev pub or_empty : Option Text → Text
or_empty none = []
or_empty (some t) = t

abbrev pub row_text : ℕ → List (ℕ × Text) → Text
row_text id rows = or_empty (find id rows)

-- `login`: a user without a row is handed back and not kept.
unfoldable pub login : Env → Name → World → User × World
login env name w = elim env.row [
  | none ↦ (no_row, w)
  | some id ↦
      if id == 0
      then (no_row, w)
      else (let u : User = record {
        id = id;
        platform_user_id = row_text id w.rows;
        taken = false;
        last_cmd = some env.day_before;
        last_location = some env.day_before;
      } in
          (
            u,
            record w {
              logged_in = put name u w.logged_in;
              rows = put id (row_text id w.rows) w.rows;
            },
          ))
]

-- `LoginIfNecessary`, which gives a copy of the entry.
unfoldable pub login_if_necessary : Env → Name → World → User × World
unfolding login
login_if_necessary env name w = elim (find name w.logged_in) [
  | some live ↦ (live, w)
  | none ↦ login env name w
]

-- The unique index: another row holds the id.
abbrev pub held_by_other : ℕ → Text → List (ℕ × Text) → Bool
held_by_other id t [] = false
held_by_other id t ((j, s) ∷ rows) =
    let rest = held_by_other id t rows in if not (j == id) && same_text s t then true else rest

abbrev pub needs_stamp : User → Text → Bool
needs_stamp u t =
    not (same_text t []) && not (same_text u.platform_user_id t) && not u.taken && not (u.id == 0)

-- The function `RecordPlatformUserID`: the user, the table, and whether a write was issued.
unfoldable pub stamp_id : Env → User → Text → List (ℕ × Text) → User × List (ℕ × Text) × Bool
stamp_id env u t rows =
    if needs_stamp u t
    then (if env.write_ok
        then (if held_by_other u.id t rows
            then (record u { taken = true }, rows, true)
            else (record u { platform_user_id = t }, put u.id t rows, true))
        else (u, rows, true))
    else (u, rows, false)

abbrev pub mirror : User → User → User
mirror u live = record live { platform_user_id = u.platform_user_id; taken = u.taken }

-- A change of the live entry, if there is one.
abbrev pub change : (User → User) → Name → List (Name × User) → List (Name × User)
change f name m = elim (find name m) [ none ↦ m | some live ↦ put name (f live) m ]

abbrev pub on_live : (User → User) → Name → World → World
on_live f name w = record w { logged_in = change f name w.logged_in }

-- The method `RecordPlatformUserID`.
unfoldable pub record_platform_user_id : Env → Name → User → Text → World → User × World × Bool
unfolding stamp_id
record_platform_user_id env name u t w =
    let (u', rows', wrote) = stamp_id env u t w.rows in
    (u', on_live (mirror u') name (record w { rows = rows' }), wrote)

-- `chatUser`: the copy that the message works on.
unfoldable pub chat_user : Env → Name → Text → World → User × World × Bool
unfolding login_if_necessary record_platform_user_id
chat_user env name t w =
    if env.persists
    then (let (u, w') = login_if_necessary env name w in record_platform_user_id env name u t w')
    else (no_row, w, false)

-- 24 * time.Hour and 3 * time.Minute, in nanoseconds.
abbrev pub day : ℕ
day = 86400000000000

abbrev pub guess_cooldown : ℕ
guess_cooldown = 180000000000

-- `now.Sub(last) <= 24*time.Hour`; the zero time is further back.
abbrev pub ran_today : Time → ℕ → Bool
ran_today none now = false
ran_today (some t) now = leb (now - t) day

abbrev pub last_of : Option User → User → Time
last_of none u = u.last_cmd
last_of (some live) u = live.last_cmd

-- `HasCommandAvailable`, which stamps the grant on the copy and on the live entry.
unfoldable pub has_command_available : Env → Name → User → World → Bool × User × World
has_command_available env name u w =
    let stamped = λ (v : User). record v { last_cmd = some env.checked_at } in
    if env.follower
    then (true, u, w)
    else (if ran_today (last_of (find name w.logged_in) u) env.checked_at
        then (false, u, w)
        else (true, stamped u, on_live stamped name w))

abbrev pub before : Time → Time → Bool
before t none = false
before none (some b) = true
before (some a) (some b) = ltb a b

-- `GuessCooldownRemaining`, above zero.
abbrev pub cools_down : Time → ℕ → Bool
cools_down none now = false
cools_down (some t) now = ltb now (t + guess_cooldown)

-- `HasGuessCommandAvailable`, of the copy.
unfoldable pub has_guess_available : User → Time → ℕ → Bool
has_guess_available u warp now = before u.last_location warp || not (cools_down u.last_location now)

-- `SetLastLocationTime`, on the user that it is called on.
abbrev pub set_last_location : ℕ → User → User
set_last_location now u = record u { last_location = some now }

-- The act of the message, by the copy `u`: the copy as it is left, the answer and the sessions.
unfoldable pub perform : Env → Name → Act → User → World → User × Answer × World
unfolding has_command_available has_guess_available
perform env name guess u w =
    (u, if has_guess_available u w.last_timewarp env.checked_at then ran else refused_cooldown, w)
perform env name reveal u w = (set_last_location env.stamped_at u, ran, w)
perform env name gated u w =
    let (ok, u', w') = has_command_available env name u w in
    (u', if ok then ran else refused_follow, w')
perform env name talk u w = (u, ran, w)

pub record Message : Type 0 where
  pub env : Env
  pub name : Name
  pub user_id : Text
  pub act : Act

-- `HandleMessage`: the copy is dropped at the end. The last part is whether the id was written.
unfoldable pub handle_message : Message → World → Answer × World × Bool
unfolding chat_user perform
handle_message m w =
    let (u, w', wrote) = chat_user m.env m.name m.user_id w in
    let (u', answer, w'') = perform m.env m.name m.act u w' in (answer, w'', wrote)

-- A message, the logout of a viewer who has left, and a jump of the playhead.
pub data Step : Type 0 where
  say : Message → Step
  logout : Name → Step
  jump : ℕ → Step

unfoldable pub step : Step → World → World
unfolding handle_message
step (say m) w = (handle_message m w).1
step (logout name) w = record w { logged_in = remove name w.logged_in }
step (jump now) w = record w { last_timewarp = some now }

unfoldable pub run : List Step → World → World
unfolding step
run [] w = w
run (s ∷ ss) w = run ss (step s w)
