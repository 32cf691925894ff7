-- ===== src/Sessions.antt =====
-- pkg/users/session.go and users.go: the viewers in one platform's chat and their miles. Usernames
-- and session ids are only compared, so they are numbers. Miles are signed integers in units of
-- 1/36,000,000,000,000 mile, in which a duration's miles and a subscriber's bonus are whole; the
-- rounding of float32 is not modelled. The mutex makes each step on the map one step here.
pub mod Ledger
pub mod Keyed
pub mod Worth
pub mod Banked
pub mod Logout
pub mod Checkpoint
pub mod Corrections
pub mod Presence
pub mod Known
pub mod Joins
pub mod Leaderboard
mod Tests
use tripbot.Base.{
  ℕ, ◌%◌, suc, ◌+◌, ◌-◌, ◌*◌, max, Bool, true, false, Option, none, some, List, [], ◌∷◌, ◌++◌, ◌==◌,
  ltb, not, ◌&&◌, if◌then◌else◌,
}
use tripbot.Base.Int.{ℤ, pos, negsuc, ◌+ℤ◌, ◌-ℤ◌, ltb_ℤ, max_ℤ}
use tripbot.Base.Maps.{find, remove, put}

abbrev pub Name : Type 0
Name = ℕ

-- A session entry, with the fields that the sessions write.
pub record User : Type 0 where
  pub id : ℕ
  pub username : Name
  pub miles : ℤ
  pub num_visits : ℕ
  pub is_bot : Bool
  pub last_seen : ℕ
  pub logged_in : ℕ
  pub session_extra_miles : ℤ
  pub miles_checkpointed : ℤ

-- A row of the users table, found by platform and username.
pub record Row : Type 0 where
  pub id : ℕ
  pub miles : ℤ
  pub num_visits : ℕ
  pub is_bot : Bool
  pub last_seen : ℕ

-- The login and logout events; a logout may carry extra miles.
pub data Event : Type 0 where
  login_event : Name → Event
  logout_event : Name → Option ℤ → Event

pub record World : Type 0 where
  pub logged_in : List (Name × User)
  pub rows : Name → Option Row
  -- The scores of each month's board; a user without one has 0.
  pub scores : ℕ → Name → ℤ
  pub next_id : ℕ
  pub log : List Event

-- What the outside answers at one step: the clock and the month, which names the score board, the subscriptions, and whether the database
-- serves a lookup, an insert, the read of an inserted row, a save, and a read and a write of a score.
pub record Env : Type 0 where
  pub now : ℕ
  pub month : ℕ
  pub subscriber : Name → Bool
  pub tier : Name → ℕ
  pub lookup_ok : Bool
  pub create_ok : Bool
  pub reread_ok : Bool
  pub save_ok : Bool
  pub score_ok : Bool
  pub add_ok : Bool

abbrev update : {A : Type 0} → (Name → A) → Name → A → Name → A
update f k v j = if k == j then v else f j

abbrev on_board : (ℕ → Name → ℤ) → ℕ → Name → ℤ → ℕ → Name → ℤ
on_board scores month name v j = if month == j then update (scores j) name v else scores j

-- `helpers.DurationToMiles`: 0.1 miles every 3 minutes, of a duration in nanoseconds.
pub duration_to_miles : ℕ → ℤ
duration_to_miles dur = pos (20 * dur)

-- `sessionBonus`: 5% of the session's miles for each tier, and at least one.
pub session_bonus : Env → User → ℤ
session_bonus env live = pos ((env.now - live.logged_in) * max 1 (env.tier live.username))

-- The session's miles before what is banked is taken off.
pub session_total : Env → User → ℤ
unfolding duration_to_miles session_bonus ◌+ℤ◌
session_total env live =
    let base = duration_to_miles (env.now - live.logged_in) in
    if env.subscriber live.username then base +ℤ session_bonus env live else base

-- `inFlightMiles`.
pub in_flight_miles : Env → User → ℤ
in_flight_miles env live =
    let in_flight = session_total env live -ℤ live.miles_checkpointed in
    if ltb_ℤ in_flight (pos 0) then pos 0 else in_flight

-- `sessionMiles`, which reads the live entry.
pub session_miles : Env → World → Name → ℤ
session_miles env w name = elim (find name w.logged_in) [
  | none ↦ pos 0
  | some live ↦ in_flight_miles env live
]

-- `CurrentMiles`.
pub current_miles : Env → World → User → ℤ
current_miles env w u = u.miles +ℤ session_miles env w u.username

-- `save`: an entry without an id is refused, and so is one without a row.
pub save : Env → User → World → World
save env u w = if u.id == 0 then w else (elim (w.rows u.username) [
  | none ↦ w
  | some r ↦
      if env.save_ok
      then record w {
        rows = update w.rows u.username (
            some (record {
              id = r.id;
              miles = u.miles;
              num_visits = u.num_visits;
              is_bot = u.is_bot;
              last_seen = u.last_seen;
            }));
      }
      else w
])

-- `AddToScore`: an unknown user is not scored.
pub add_to_score : Env → Name → ℤ → World → World
add_to_score env name v w = elim (w.rows name) [
  | none ↦ w
  | some r ↦
      if env.add_ok
      then record w { scores = on_board w.scores env.month name (w.scores env.month name +ℤ v) }
      else w
]

abbrev of_row : Name → Row → User
of_row name r = record {
  id = r.id;
  username = name;
  miles = r.miles;
  num_visits = r.num_visits;
  is_bot = r.is_bot;
  last_seen = r.last_seen;
  logged_in = 0;
  session_extra_miles = pos 0;
  miles_checkpointed = pos 0;
}

-- `create`: a row with one visit, read back. It stays when the read fails.
pub create : Env → Name → World → World × Option User
create env name w =
    let row : Row = record {
      id = w.next_id;
      miles = pos 0;
      num_visits = 1;
      is_bot = false;
      last_seen = env.now;
    } in
    if env.create_ok
    then (
      record w { rows = update w.rows name (some row); next_id = w.next_id + 1 },
      (if env.reread_ok then some (of_row name row) else none),
    )
    else (w, none)

-- `FindOrCreate`; `none` stands for the zero User and its error.
pub find_or_create : Env → Name → World → World × Option User
find_or_create env name w =
    if env.lookup_ok
    then (elim (w.rows name) [ none ↦ create env name w | some r ↦ (w, some (of_row name r)) ])
    else (w, none)

-- `login`, with the user that it found.
pub login_user : Env → Name → User → World → World
login_user env name found w =
    let user = record found {
      num_visits = (found.num_visits + 1) % 65536;
      logged_in = env.now;
      last_seen = env.now;
    } in
    if found.id == 0
    then w
    else (let saved = save env user w in
        record saved {
          logged_in = put name user saved.logged_in;
          log = saved.log ++ login_event name ∷ [];
        })

pub login : Env → Name → World → World
login env name w =
    let (w', found) = find_or_create env name w in
    elim found [ none ↦ w' | some u ↦ login_user env name u w' ]

pub login_if_necessary : Env → Name → World → World
login_if_necessary env name w = elim (find name w.logged_in) [
  | some u ↦ w
  | none ↦ login env name w
]

-- The bonus that a logout records, `none` when it is zero.
abbrev extra_miles : Env → User → Option ℤ
extra_miles env u =
    let extra =
      if env.subscriber u.username
      then u.session_extra_miles +ℤ session_bonus env u
      else u.session_extra_miles in
    if ltb_ℤ (pos 0) extra then some extra else none

-- The rest of `logout`, for the entry that it has claimed.
pub close : Env → User → World → World
close env u w =
    let earned = in_flight_miles env u in
    let saved = save env (record u { miles = u.miles +ℤ earned; last_seen = env.now }) w in
    let scored = add_to_score env u.username earned saved in
    record scored { log = scored.log ++ logout_event u.username (extra_miles env u) ∷ [] }

pub logout : Env → Name → World → World
logout env name w = elim (find name w.logged_in) [
  | none ↦ w
  | some u ↦ close env u (record w { logged_in = remove name w.logged_in })
]

-- One user of `CheckpointMiles`: bank what is in flight, in the entry and in both stores.
pub checkpoint_user : Env → Name → World → World
checkpoint_user env name w = elim (find name w.logged_in) [
  | none ↦ w
  | some live ↦
      let earned = in_flight_miles env live in
      let u = record live {
        miles = live.miles +ℤ earned;
        miles_checkpointed = live.miles_checkpointed +ℤ earned;
      } in
      if ltb_ℤ (pos 0) earned
      then add_to_score env u.username earned
          (save env u (record w { logged_in = put name u w.logged_in }))
      else w
]

-- The names of a snapshot of the map, in the order of its iteration.
abbrev names : List (Name × User) → List Name
names [] = []
names ((name, u) ∷ m) = name ∷ names m

pub for_each : (Name → World → World) → List Name → World → World
for_each f [] w = w
for_each f (n ∷ ns) w = for_each f ns (f n w)

pub checkpoint_miles : Env → World → World
checkpoint_miles env w = for_each (checkpoint_user env) (names w.logged_in) w

pub shutdown : Env → World → World
shutdown env w = for_each (logout env) (names w.logged_in) w

abbrev has : Name → List Name → Bool
has n [] = false
has n (m ∷ ms) = let rest = has n ms in if m == n then true else rest

abbrev without : List Name → List Name → List Name
without [] ms = []
without (n ∷ ns) ms = let rest = without ns ms in if has n ms then rest else n ∷ rest

-- The session half of `UpdateSession`, for the chatters that the source reports: one snapshot
-- serves both passes.
pub update_session : Env → List Name → World → World
update_session env chatters w =
    let present = names w.logged_in in
    for_each (login_if_necessary env) (without chatters present)
      (for_each (logout env) (without present chatters) w)

abbrev gift_all : ℤ → List (Name × User) → List (Name × User)
gift_all gift [] = []
gift_all gift ((name, u) ∷ m) =
    (
      name,
      record u { miles = u.miles +ℤ gift; session_extra_miles = u.session_extra_miles +ℤ gift },
    )
    ∷ gift_all gift m

pub give_everyone_miles : ℤ → World → World
give_everyone_miles gift w = record w { logged_in = gift_all gift w.logged_in }

-- `clampClawback`.
pub clamp_clawback : ℤ → ℤ → ℤ
unfolding max_ℤ
clamp_clawback balance delta =
    if not (ltb_ℤ delta (pos 0)) then delta else max_ℤ delta (pos 0 -ℤ max_ℤ balance (pos 0))

abbrev is_zero : ℤ → Bool
is_zero (pos n) = n == 0
is_zero (negsuc n) = false

-- -1 mile, the sentinel of `GetScore`.
abbrev score_error : ℤ
score_error = pos 0 -ℤ pos 36000000000000

-- `GetScore` on the month's board.
abbrev get_score : Env → Name → World → ℤ
get_score env name w = if env.score_ok then w.scores env.month name else score_error

abbrev add_monthly : Env → Name → ℤ → World → World
add_monthly env name d w = if is_zero d then w else add_to_score env name d w

-- The clawback half of `correctMonthly`, against the score that it read.
pub claw_monthly : Env → Name → ℤ → ℤ → World → World
claw_monthly env name delta owed w =
    let clamped = if ltb_ℤ (owed +ℤ delta) (pos 0) then pos 0 -ℤ owed else delta in
    if ltb_ℤ owed (pos 0) then w else add_monthly env name clamped w

-- `correctMonthly`.
pub correct_monthly : Env → User → ℤ → World → World
correct_monthly env u delta w =
    if u.id == 0
    then w
    else (if ltb_ℤ delta (pos 0)
        then claw_monthly env u.username delta (get_score env u.username w) w
        else add_monthly env u.username delta w)

-- `CorrectMiles`: the new total and the delta that was applied, or an error.
pub correct_miles : Env → Name → ℤ → World → World × Option (ℤ × ℤ)
correct_miles env name delta w = elim (find name w.logged_in) [
  | some live ↦
      let d = clamp_clawback live.miles delta in
      let u = record live { miles = live.miles +ℤ d } in
      (
        correct_monthly env u d (save env u (record w { logged_in = put name u w.logged_in })),
        some (u.miles, d),
      )
  | none ↦
      let (w', found) = find_or_create env name w in
      elim found [
        | none ↦ (w', none)
        | some r ↦
            let d = clamp_clawback r.miles delta in
            let u = record r { miles = r.miles +ℤ d } in
            (correct_monthly env u d (save env u w'), some (u.miles, d))
      ]
]
