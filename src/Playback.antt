-- ===== src/Playback.antt =====
-- pkg/chatbot/playback.go and find.go: the commands that move the playhead. They share the time of the
-- last jump, which a command reads for the rate limit and stamps when it has moved the playhead. What
-- playout, the video table and the search answer is the command's own data; a handler gives its
-- effects in order and the time of the last jump after it. The texts of the replies are left out.
pub mod Input
pub mod Pick
pub mod Spacing
pub mod Seeks
pub mod States
pub mod Picks
mod Tests
use tripbot.Base.{
  ℕ, Bool, true, false, not, ◌&&◌, Option, none, some, List, [], ◌∷◌, ◌++◌, ltb, if◌then◌else◌, ◌^◌,
  ◌-◌,
}
use tripbot.Base.Int.{ℤ, pos, negsuc, ◌-ℤ◌, ltb_ℤ}
use tripbot.Clock.{Time, since}

-- The sender's standing, whether the bot runs on a Mac, the clock at the check and at the stamp, and
-- whether playout accepts the call.
pub record Env : Type 0 where
  pub broadcaster : Bool
  pub darwin : Bool
  pub checked_at : ℕ
  pub stamped_at : ℕ
  pub playout_ok : Bool

pub data Reply : Type 0 where
  unavailable not_yet here_we_go usage not_a_state no_footage : Reply
  jumping : (same_state : Bool) → Reply
  no_daytime no_skip fast_forward ahead backwards looking not_found no_search found no_jump : Reply

-- The calls of playout, the overlay, the refresh of the current video and the timewarp event.
pub data Effect : Type 0 where
  say : Reply → Effect
  overlay play_random play_file skip_one back_one : Effect
  seek : ℤ → Effect
  play_at refresh record_warp : Effect

abbrev pub Outcome : Type 0
Outcome = List Effect × Time

-- 20 * time.Second, in nanoseconds.
abbrev pub rest_time : ℕ
rest_time = 20000000000

unfoldable pub too_soon : Env → Time → Bool
unfolding since
too_soon env last = not env.broadcaster && ltb (since last env.checked_at) rest_time

-- What every one of the commands begins with.
unfoldable pub guarded : Env → Time → Outcome → Outcome
unfolding too_soon
guarded env last body =
    if env.darwin
    then (say unavailable ∷ [], last)
    else (if too_soon env last then (say not_yet ∷ [], last) else body)

-- `timewarp`, which a correct guess and a gift call too: it stamps whether or not playout accepts.
abbrev pub timewarp : Env → Outcome
timewarp env = (overlay ∷ play_random ∷ refresh ∷ record_warp ∷ [], some env.stamped_at)

unfoldable pub timewarp_cmd : Env → Time → Outcome
unfolding guarded
timewarp_cmd env last =
    let (es, at) = timewarp env in
    guarded env last (if env.broadcaster then (es, at) else (say here_we_go ∷ es, at))

-- The params of !jump after they are read, and the clip that is found.
pub data Place : Type 0 where
  no_params unusable unknown_state : Place
  state : Place

pub data Clip : Type 0 where
  missing failed : Clip
  clip : (same_state : Bool) → Clip

abbrev jump_to : Env → Time → Clip → Outcome
jump_to env last missing = (say no_footage ∷ [], last)
jump_to env last failed = (say usage ∷ [], last)
jump_to env last (clip same) =
    if env.playout_ok
    then (play_file ∷ say (jumping same) ∷ refresh ∷ [], some env.stamped_at)
    else (play_file ∷ say usage ∷ [], last)

abbrev jump_at : Env → Time → Place → Clip → Outcome
jump_at env last no_params c = (say usage ∷ [], last)
jump_at env last unusable c = (say usage ∷ [], last)
jump_at env last unknown_state c = (say not_a_state ∷ [], last)
jump_at env last state c = jump_to env last c

unfoldable pub jump_cmd : Env → Time → Place → Clip → Outcome
unfolding guarded
jump_cmd env last place c = guarded env last (jump_at env last place c)

abbrev daytime_to : Env → Time → Clip → Outcome
daytime_to env last missing = (say no_daytime ∷ [], last)
daytime_to env last failed = (say no_skip ∷ [], last)
daytime_to env last (clip same) =
    if env.playout_ok
    then (play_file ∷ say fast_forward ∷ refresh ∷ [], some env.stamped_at)
    else (play_file ∷ say no_skip ∷ [], last)

unfoldable pub daytime_cmd : Env → Time → Clip → Outcome
unfolding guarded
daytime_cmd env last c = guarded env last (daytime_to env last c)

-- The bounds of int64, and the product with a direction, which wraps at the lower bound.
abbrev pub int64_min : ℤ
int64_min = negsuc (2 ^ 63 - 1)

abbrev pub is_min : ℤ → Bool
is_min x = not (ltb_ℤ int64_min x)

unfoldable pub negated : ℤ → ℤ
unfolding ◌-ℤ◌
negated x = if is_min x then x else pos 0 -ℤ x

pub data Direction : Type 0 where
  forwards back : Direction

abbrev pub directed : Direction → ℤ → ℤ
directed forwards x = x
directed back x = negated x

abbrev pub one_clip : Direction → Effect
one_clip forwards = skip_one
one_clip back = back_one

abbrev is_zero : ℤ → Bool
is_zero x = not (ltb_ℤ x (pos 0)) && not (ltb_ℤ (pos 0) x)

-- The span of a seek: no argument, one that is no span, or a span.
pub data Span : Type 0 where
  no_span bad_span : Span
  span : ℤ → Span

abbrev pub seek_by : Env → Time → Direction → Span → Outcome
seek_by env last dir no_span = (one_clip dir ∷ refresh ∷ [], some env.stamped_at)
seek_by env last dir bad_span = (say usage ∷ [], last)
seek_by env last dir (span x) = if is_zero x then (say usage ∷ [], last) else (
  seek (directed dir x)
      ∷ say (if ltb_ℤ (pos 0) (directed dir x) then ahead else backwards)
      ∷ refresh
      ∷ [],
  some env.stamped_at,
)

-- `seekCmd`: !skip and !back, which stamp whether or not playout accepts.
unfoldable pub seek_cmd : Env → Time → Direction → Span → Outcome
unfolding guarded negated
seek_cmd env last dir s = guarded env last (seek_by env last dir s)

-- What !find is asked, and what the search answers.
pub data Query : Type 0 where
  no_query : Query
  state_name : Place → Clip → Query
  missed down : Query
  hit : Query

abbrev find_for : Env → Time → Query → Outcome
find_for env last no_query = (say usage ∷ [], last)
find_for env last (state_name place c) = jump_cmd env last place c
find_for env last missed = (say looking ∷ say not_found ∷ [], last)
find_for env last down = (say looking ∷ say no_search ∷ [], last)
find_for env last hit =
    if env.playout_ok
    then (say looking ∷ say found ∷ overlay ∷ play_at ∷ refresh ∷ [], some env.stamped_at)
    else (say looking ∷ say found ∷ overlay ∷ play_at ∷ say no_jump ∷ [], last)

unfoldable pub find_cmd : Env → Time → Query → Outcome
unfolding guarded jump_cmd
find_cmd env last q = guarded env last (find_for env last q)

-- `Find`, the search of an operator, which is not held back and says nothing in chat.
unfoldable pub operator_find : Env → Time → Query → Outcome
operator_find env last hit =
    if env.darwin
    then ([], last)
    else (if env.playout_ok
        then (overlay ∷ play_at ∷ refresh ∷ [], some env.stamped_at)
        else (overlay ∷ play_at ∷ [], last))
operator_find env last _ = ([], last)

-- A command, the timewarp that a correct guess or a gift sets off, or an operator's search.
pub data Command : Type 0 where
  timewarps warped : Command
  operated : Query → Command
  jumps : Place → Clip → Command
  daytimes : Clip → Command
  seeks : Direction → Span → Command
  finds : Query → Command

unfoldable pub perform : Env → Time → Command → Outcome
unfolding timewarp_cmd jump_cmd daytime_cmd seek_cmd find_cmd operator_find
perform env last timewarps = timewarp_cmd env last
perform env last warped = timewarp env
perform env last (operated q) = operator_find env last q
perform env last (jumps place c) = jump_cmd env last place c
perform env last (daytimes c) = daytime_cmd env last c
perform env last (seeks dir s) = seek_cmd env last dir s
perform env last (finds q) = find_cmd env last q
