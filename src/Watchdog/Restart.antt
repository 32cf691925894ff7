-- ===== src/Watchdog/Restart.antt =====
-- pkg/obs/watchdog: RestartOBSOutput (watchdog.go) and RestartBroadcast (cap.go) with what they are
-- made of. Each returns its result and the calls that it made on OBS. A poll loop asks its
-- environment, a function from the number of the poll, and takes fuel.
pub mod Polls
pub mod Starts
pub mod Ends
mod Tests
use tripbot.Base.{
  ℕ, zero, suc, ◌+◌, Bool, true, false, Option, none, some, List, [], ◌∷◌, ◌++◌, ltb, leb, ◌&&◌,
  if◌then◌else◌, not,
}

-- One poll: whether the context is canceled before it, what the read answers (`none` when it
-- fails), and the clock after it.
pub record Poll : Type 0 where
  pub canceled : Bool
  pub answer : Option Bool
  pub at : ℕ

pub data PollError : Type 0 where
  canceled_wait read_failed timed_out : PollError

-- The calls on OBS and the pauses between them, in milliseconds. `start_stream` carries its result.
-- A pause may be cut short by the end of the start context.
pub data Call : Type 0 where
  stop_stream disconnect : Call
  start_stream : Bool → Call
  pause : ℕ → Call

-- What became of a stop: `unconfirmed` is errStopUnconfirmed around a failed wait.
pub data Stopped : Type 0 where
  confirmed : Stopped
  dial_failed stop_refused : Stopped
  unconfirmed : PollError → Stopped

pub data Result : Type 0 where
  ok : Result
  not_stopped : Stopped → Result
  -- The starts failed, after an unconfirmed stop if there is one.
  not_started : Option PollError → Result

-- time.Second and time.Minute, in milliseconds.
abbrev pub stop_timeout : ℕ
stop_timeout = 30000

abbrev pub stop_poll : ℕ
stop_poll = 500

abbrev pub offline_timeout : ℕ
offline_timeout = 300000

abbrev pub offline_poll : ℕ
offline_poll = 15000

abbrev pub start_attempts : ℕ
start_attempts = 3

abbrev pub start_retry : ℕ
start_retry = 5000

abbrev pub teardown_settle : ℕ
teardown_settle = 3000

-- The loop of `awaitOutputStopped` from poll `n` on. `some none` is success, the outer `none` means
-- that the fuel ran out.
pub await_stopped : ℕ → (ℕ → Poll) → ℕ → ℕ → Option (Option PollError)
await_stopped deadline polls zero n = none
await_stopped deadline polls (suc fuel) n =
    let rest = await_stopped deadline polls fuel (suc n) in
    let p = polls n in
    if p.canceled then some (some canceled_wait) else (elim p.answer [
      | none ↦ some (some read_failed)
      | some active ↦
          if not active
          then some none
          else (if leb deadline p.at then some (some timed_out) else rest)
    ])

-- The loop of `awaitOffline`: a failed read counts as not yet offline.
pub await_offline : ℕ → (ℕ → Poll) → ℕ → ℕ → Option (Option PollError)
await_offline deadline polls zero n = none
await_offline deadline polls (suc fuel) n =
    let rest = await_offline deadline polls fuel (suc n) in
    let p = polls n in
    let late = if leb deadline p.at then some (some timed_out) else rest in
    if p.canceled
    then some (some canceled_wait)
    else (elim p.answer [ none ↦ late | some live ↦ if not live then some none else late ])

-- What a restart meets: whether OBS can be dialed and accepts the stop, the clock when each wait
-- begins and its polls, and for each try of the start whether the start context ends in the pause
-- before it and whether the start succeeds.
pub record World : Type 0 where
  pub dials : Bool
  pub stops : Bool
  pub stop_began : ℕ
  pub stop_polls : ℕ → Poll
  pub offline_began : ℕ
  pub offline_polls : ℕ → Poll
  pub start_expires : ℕ → Bool
  pub starts : ℕ → Bool

-- `stopOBSOutput`.
pub stop_output : ℕ → World → Option (Stopped × List Call)
stop_output fuel w =
    if not w.dials
    then some (dial_failed, [])
    else (if not w.stops
        then some (stop_refused, stop_stream ∷ disconnect ∷ [])
        else (elim (await_stopped (w.stop_began + stop_timeout) w.stop_polls fuel 0) [
          | none ↦ none
          | some none ↦ some (confirmed, stop_stream ∷ disconnect ∷ [])
          | some (some e) ↦ some (unconfirmed e, stop_stream ∷ disconnect ∷ [])
        ]))

-- `retryStart` from try `i` on, with `left` tries left: whether a start succeeded, and the starts with their pauses.
pub retry_start : World → ℕ → ℕ → Bool × List Call
retry_start w i zero = (false, [])
retry_start w i (suc left) =
    let later = retry_start w (suc i) left in
    let tried =
      if w.starts i
      then (true, start_stream true ∷ [])
      else (later.0, start_stream false ∷ later.1) in
    if ltb 0 i
    then (if w.start_expires i
        then (false, pause start_retry ∷ [])
        else (tried.0, pause start_retry ∷ tried.1))
    else tried

-- `startAfterStop`, with the pause that it begins with.
pub start_after_stop : ℕ → World → Option PollError → Result × List Call
start_after_stop settle w stop_err =
    let (started, calls) = retry_start w 0 start_attempts in
    (if started then ok else not_started stop_err, pause settle ∷ calls)

-- `RestartOBSOutput`: only a stop that OBS did not accept ends it early.
pub restart_output : ℕ → World → Option (Result × List Call)
restart_output fuel w = elim (stop_output fuel w) [
  | none ↦ none
  | some (confirmed, cs) ↦
      let (r, cs') = start_after_stop teardown_settle w none in some (r, cs ++ cs')
  | some (unconfirmed e, cs) ↦
      let (r, cs') = start_after_stop teardown_settle w (some e) in some (r, cs ++ cs')
  | some (dial_failed, cs) ↦ some (not_stopped dial_failed, cs)
  | some (stop_refused, cs) ↦ some (not_stopped stop_refused, cs)
]

-- `RestartBroadcast`: after a confirmed stop it waits for the platform to report the channel
-- offline, and starts the output whether or not that was seen.
pub restart_broadcast : ℕ → World → Option (Result × List Call)
restart_broadcast fuel w = elim (stop_output fuel w) [
  | none ↦ none
  | some (confirmed, cs) ↦
      elim (await_offline (w.offline_began + offline_timeout) w.offline_polls fuel 0) [
        | none ↦ none
        | some _ ↦ let (r, cs') = start_after_stop 0 w none in some (r, cs ++ cs')
      ]
  | some (unconfirmed e, cs) ↦ let (r, cs') = start_after_stop 0 w (some e) in some (r, cs ++ cs')
  | some (dial_failed, cs) ↦ some (not_stopped dial_failed, cs)
  | some (stop_refused, cs) ↦ some (not_stopped stop_refused, cs)
]
