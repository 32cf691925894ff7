-- ===== src/Clock.antt =====
-- The standard library's clock, as the watchdogs use it: times are nanoseconds of one monotonic
-- clock, and every reading is an argument of the step that takes it.
use tripbot.Base.{ℕ, ◌-◌, ◌^◌, min, Option, none, some}

-- A `time.Time`, `none` for the zero time.
abbrev pub Time : Type 0
Time = Option ℕ

-- The largest `time.Duration`, at which `time.Since` saturates.
abbrev pub max_duration : ℕ
max_duration = 2 ^ 63 - 1

-- `time.Since`: the zero time lies further back than the largest duration.
unfoldable pub since : Time → ℕ → ℕ
since none now = max_duration
since (some t) now = min (now - t) max_duration
