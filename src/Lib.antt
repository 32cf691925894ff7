-- ===== src/Lib.antt =====
-- tripbot: a chat bot and overlay server around a 24/7 dashcam stream. This library models the
-- parts of its Go code that decide something by themselves, each in the files named after it.
--
-- Watchdog, for pkg/obs/watchdog. Watchdog/Silent is WatchSilentDisconnect (watchdog.go): the
-- loop's variables are the record State, what the dependencies answer on a tick is the record
-- Tick, `tick` is one pass of the loop with the calls that leave it as a list of effects, and
-- `run` folds it over the ticks. Watchdog/Cap is WatchBroadcastCap (cap.go) in the same shape.
-- Watchdog/Restart is RestartOBSOutput and RestartBroadcast with their two polls. The loops call
-- a restart through their dependencies, so a restart's outcome is part of the tick.
--
-- Audio, for pkg/obs/audiowatchdog/audiowatchdog.go: Watch, again as `tick` and `run`, with the
-- helper media_state_down of pkg/obs/mediastatus.go. Sound levels are floats that are only
-- compared, so their type and order are arguments.
--
-- Beds, for pkg/obs/beds: Store and its methods (beds.go), over the stations of stations.go and
-- the OBS source of pkg/obs/inputs.go. World is the store, the source and the timers' callbacks
-- that have not run; a method is one step on it, with what the clock, OBS and the library answer
-- in Env, and gives the error and the calls to OBS. Beds/Events puts the methods, the operator's
-- requests, late timers and the watchdog's swaps into sequences; Beds/Latest is about the order
-- of requests, Beds/Truth to Beds/Recover about what is said to be on air, of the album only
-- that a file of the share plays, Beds/Albums and Beds/Repeats about the fallback album.
--
-- Sessions, for pkg/users/session.go and users.go with pkg/scoreboards/scores.go: World holds
-- the map of sessions, the users table and the score boards by month; each method is a function
-- on it, and Env is what the clock, the platform and the database answer during one method.
-- Sessions/Ledger and its neighbours follow one viewer's miles from login to logout while others
-- come and go; Presence, Known and Joins are about the poll of the chatters; Corrections is
-- CorrectMiles. Sessions/Leaderboard is leaderboard.go, over the rows that its query answers.
--
-- Messages, for HandleMessage and chatUser of pkg/chatbot/handlers.go with the per-viewer timers
-- of pkg/users/users.go: a message resolves its sender to a copy of the session's entry, stamps
-- the platform's user id, runs an act on the copy, and drops the copy. Only the fields that
-- messages use are kept here; the miles are in Sessions.
--
-- Playback, for pkg/chatbot/playback.go and find.go: every command that moves the playhead as
-- its list of effects and the time of the last jump after it, which they share for the rate
-- limit. Playback/Input reads the params, with NormalizeStateInput of pkg/helpers/states.go, and
-- Playback/Pick is the pick among the search's hits.
--
-- Flags, for pkg/feature: the evaluation of a flag (feature.go) and the client that caches a
-- platform's rows (postgres.go), over a database that is a parameter, its state given with each
-- poll and each toggle. Flags/Toggle says what it takes of the database.
--
-- Streaming, for pkg/obs/streaming.go: the passes of PollStreamingActive, each its dial and the
-- events on its connection, and the state that LastStreamState gives the watchdogs.
--
-- Fuzzy, for pkg/chatbot/fuzzy.go: levenshtein as it fills its rows, against edits of texts, and
-- fuzzyLookup over the entries in the order in which the map yields them.
--
-- Dispatch, for pkg/chatbot/handlers.go and registry.go: Dispatch/Registry is the index of the
-- commands that a platform runs, Dispatch/Lookup is findCommand with its fallbacks (the
-- misspelling is Fuzzy's lookup), and Dispatch/Gates is checkAccess, dispatch and runCommand, as
-- the list of what a message causes. The registry, the sender's standing and whether the handler
-- refuses by itself are arguments; a row of the event log is its command, typed token, args and
-- reason.
--
-- Rotator, for pkg/rotator: the tokens of a line, Pick (rotator.go, vars.go), and in
-- Rotator/Sanitize the check of submitted copy (validate.go, fit.go).
--
-- Corners, for pkg/onscreens-server/rotator.go and live-data.go: the two corners over Pick, each
-- excluding the commands that the other shows, as steps of one world: a tick of either, an edit
-- of the copy, clip data that arrives.
--
-- Onscreen, for pkg/onscreens-server/onscreens.go: one overlay, its window and the memo of its
-- rendering.
--
-- Base and Clock hold what the parts share: tests, lists, signed integers, maps, and time.Since
-- with its saturation at the largest duration.
--
-- Bounds and fuel. Only the two polls of Watchdog/Restart run on fuel: when every poll comes at
-- least an interval after the one before, fuel whose product with the interval reaches the time
-- allowed is enough, as Watchdog/Restart/Polls proves. Every other loop is recursion on a list
-- or on a count of tries. Times are nanoseconds as natural numbers of one clock that does not
-- run backwards; sums and products of durations are not cut to 64 bits. Miles are whole units of
-- 1/36,000,000,000,000 mile, so the rounding of float32 is not modelled. The visit count wraps
-- at 16 bits and the generation of a bed switch at 64 bits, as in the code.
--
-- Not modelled: logging and gauges except where an effect names them; the mutexes, whose
-- critical sections are one step each (a method of the bed store is one step with its OBS call,
-- so runs in which another method or timer gets the lock before OBS has answered are left out;
-- in those a superseded switch that has reached its OBS call still lands), and the interleaving
-- of one method's database calls with another method; the contents of the network, database and
-- OBS calls. regexp's two patterns are a scan over bytes; strings.TrimSpace, ToLower and
-- EqualFold, unicode.IsLetter, the table of state names, utf8.RuneCountInString, the random
-- draws and the markdown renderer are arguments.
--
-- The other parts of the repository (the bodies of most chat commands, video selection, the
-- admin server, the event bus and the tools) are not modelled.
pub mod Base
pub mod Audio
pub mod Beds
pub mod Clock
pub mod Corners
pub mod Dispatch
pub mod Flags
pub mod Fuzzy
pub mod Messages
pub mod Onscreen
pub mod Playback
pub mod Rotator
pub mod Sessions
pub mod Streaming
pub mod Watchdog
