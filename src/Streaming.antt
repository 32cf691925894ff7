-- ===== src/Streaming.antt =====
-- pkg/obs/streaming.go: the poller of OBS's streaming state, and the state that it keeps for its
-- readers. An attempt is one pass of PollStreamingActive: its dial, and what then arrives on the
-- connection, event by event. The gauges of the stream's traffic and OBS's own load are left out, and
-- so is the cache's time stamp, which nothing reads.
pub mod Current
pub mod Backoff
mod Tests
use tripbot.Base.{
  ℕ, zero, suc, ◌+◌, ◌*◌, min, Bool, true, false, Option, none, some, List, [], ◌∷◌, ◌++◌, leb,
  if◌then◌else◌,
}
use tripbot.Watchdog.{StreamState, steady, reconnecting, inactive}

-- `streamStateCache`.
pub record Cache : Type 0 where
  pub state : StreamState
  pub known : Bool

abbrev pub fresh : Cache
fresh = record { state = inactive; known = false }

abbrev pub set : StreamState → Cache → Cache
set st c = record c { state = st; known = true }

abbrev pub forget : Cache → Cache
forget c = record c { known = false }

-- `LastStreamState`, `none` for ErrUnreachable.
unfoldable pub last_stream_state : Cache → Option StreamState
last_stream_state c = if c.known then some c.state else none

-- The flags of GetStreamStatus.
pub record Status : Type 0 where
  pub active : Bool
  pub reconnects : Bool

-- `streamStateFrom`.
unfoldable pub stream_state_from : Status → StreamState
stream_state_from r = if r.active then (if r.reconnects then reconnecting else steady) else inactive

-- What ends or wakes the loop of `poll`: the event stream closes, the context is canceled, OBS pushes
-- an event (`none` if it is none of the stream's state), or the ticker fires and OBS answers.
pub data Event : Type 0 where
  closed : Event
  canceled : Event
  pushed : Option Bool → Event
  ticked : Option Status → Event

-- The gauge of the streaming state, what goes out on the event bus (`none` for unreachable), and the
-- wait before the next dial.
pub data Effect : Type 0 where
  gauge : Bool → Effect
  emit : Option StreamState → Effect
  wait : ℕ → Effect

-- How a pass stands: on the open connection, gone with whether OBS was reached, or stopped for good.
pub data Standing : Type 0 where
  open_still : Standing
  gone : Bool → Standing
  stopped : Standing

abbrev pub Outcome : Type 0
Outcome = Cache × List Effect × Standing

-- One event in the loop of `poll`.
unfoldable pub on_event : Cache → Event → Outcome
unfolding stream_state_from
on_event c closed = (c, gauge false ∷ [], gone true)
on_event c canceled = (c, [], stopped)
on_event c (pushed none) = (c, [], open_still)
on_event c (pushed (some active)) = (c, gauge active ∷ [], open_still)
on_event c (ticked none) = (c, gauge false ∷ [], gone true)
on_event c (ticked (some r)) =
    let st = stream_state_from r in (set st c, gauge r.active ∷ emit (some st) ∷ [], open_still)

-- The deferred calls when `poll` returns.
abbrev pub leave : Outcome → Outcome → Outcome
leave (c, out, open_still) (c', later, st) = (c', out ++ later, st)
leave (c, out, gone reached) rest = (forget c, out ++ emit none ∷ [], gone reached)
leave (c, out, stopped) rest = (forget c, out ++ emit none ∷ [], stopped)

-- The loop of `poll`, up to its end or the last event so far.
unfoldable pub consume : Cache → List Event → Outcome
unfolding on_event
consume c [] = (c, [], open_still)
consume c (e ∷ es) = leave (on_event c e) (consume (on_event c e).0 es)

pub record Attempt : Type 0 where
  pub dials : Bool
  pub events : List Event

unfoldable pub poll : Cache → Attempt → Outcome
unfolding consume
poll c a =
    if a.dials then consume c a.events else (forget c, gauge false ∷ emit none ∷ [], gone false)

-- 10 * time.Second and 5 * time.Minute, in nanoseconds.
abbrev pub base_wait : ℕ
base_wait = 10000000000

abbrev pub max_reconnect_wait : ℕ
max_reconnect_wait = 300000000000

-- The loop of `reconnectWait`.
unfoldable pub doubled : ℕ → ℕ → ℕ
doubled zero ns = ns
doubled (suc k) ns =
    let rest = doubled k (ns * 2) in
    if leb max_reconnect_wait (ns * 2) then max_reconnect_wait else rest

unfoldable pub reconnect_wait : ℕ → ℕ
unfolding doubled
reconnect_wait n = doubled (min n 6) base_wait

-- What follows a pass: the count of failed dials, the wait and the next pass.
abbrev pub go_on : Outcome → (ℕ → Cache → Cache × List Effect) → ℕ → Cache × List Effect
go_on (c, out, open_still) later failures = (c, out)
go_on (c, out, stopped) later failures = (c, out)
go_on (c, out, gone reached) later failures =
    let failures' = if reached then 0 else failures + 1 in
    let (c', out') = later failures' c in (c', out ++ wait (reconnect_wait failures') ∷ out')

-- `PollStreamingActive`, over the attempts so far.
unfoldable pub run : List Attempt → ℕ → Cache → Cache × List Effect
unfolding poll reconnect_wait
run [] failures c = (c, [])
run (a ∷ attempts) failures c = go_on (poll c a) (run attempts) failures
