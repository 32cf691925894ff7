-- ===== src/Watchdog/Silent.antt =====
-- pkg/obs/watchdog/watchdog.go, WatchSilentDisconnect: one tick of the loop as a function on the
-- loop's variables, and the loop as a fold over the ticks. What the dependencies answer on a tick
-- is the tick's data; the calls that leave the loop are its list of effects.
pub mod Rounds
pub mod Evidence
pub mod Detection
pub mod Recovery
mod Tests
use tripbot.Base.{
  ℕ, suc, ◌+◌, ◌*◌, Bool, true, false, Option, none, some, List, [], ◌∷◌, ◌++◌, ltb, leb, not,
  if◌then◌else◌,
}
use tripbot.Clock.{Time, since}
use tripbot.Watchdog.{StreamState, steady, reconnecting, inactive}

pub record Config : Type 0 where
  pub interval : ℕ
  pub threshold : ℕ
  pub cooldown : ℕ
  -- Whether the optional hooks are set.
  pub on_restart : Bool
  pub on_recovered : Bool

-- What one tick reads: OBS's state (`none` when OBS is unreachable) and the clock after it, the
-- channel's live status (`none` when the check fails) and the clock after that, and whether a
-- restart, if one is run, succeeds. The answers that a tick does not ask for are not used.
pub record Tick : Type 0 where
  pub obs : Option StreamState
  pub seen_at : ℕ
  pub live : Option Bool
  pub answered_at : ℕ
  pub restart_ok : Bool

pub record State : Type 0 where
  pub misses : ℕ
  pub live_streak : ℕ
  pub last_restart : Time
  pub last_answer : Time
  pub reconnecting_since : Time
  pub rounds : ℕ
  pub exhausted : Bool

-- `gauge` sets OBSRecoveryExhausted, `attempt` counts a restart with its result, and the two
-- `tell` effects are the optional hooks.
pub data Effect : Type 0 where
  gauge : Bool → Effect
  restart : Effect
  attempt : Bool → Effect
  tell_restart : Bool → Effect
  tell_recovered : Effect

-- 3 * time.Minute, in nanoseconds.
abbrev pub reconnect_grace : ℕ
reconnect_grace = 180000000000

abbrev pub max_recovery_rounds : ℕ
max_recovery_rounds = 3

abbrev pub stale_after : Config → ℕ
stale_after c = c.threshold * c.interval

-- The variables after the startup `rearm`, and the effect of that call.
unfoldable pub start : State × List Effect
start = (
  record {
    misses = 0;
    live_streak = 0;
    last_restart = none;
    last_answer = none;
    reconnecting_since = none;
    rounds = 0;
    exhausted = false;
  },
  gauge false ∷ [],
)

rearm : State → State × List Effect
rearm s = (record s { rounds = 0; exhausted = false }, gauge false ∷ [])

abbrev is_zero : Time → Bool
is_zero none = true
is_zero (some t) = false

abbrev when : Bool → Effect → List Effect
when b e = if b then e ∷ [] else []

-- The channel is live.
on_live : Config → State → State × List Effect
unfolding rearm
on_live c s =
    let s' = record s { misses = 0; live_streak = s.live_streak + 1 } in
    if leb c.threshold s'.live_streak
    then (if is_zero s.last_restart
        then (s', [])
        else (let (r, es) = rearm (record s' { last_restart = none }) in
            (r, es ++ when c.on_recovered tell_recovered)))
    else (s', [])

-- The forced restart.
force : Config → Tick → State → State × List Effect
force c t s =
    let tried = record s {
      last_restart = some t.answered_at;
      rounds = s.rounds + 1;
      reconnecting_since = none;
    } in
    (
      if t.restart_ok then record tried { misses = 0 } else tried,
      restart ∷ attempt t.restart_ok ∷ when c.on_restart (tell_restart t.restart_ok),
    )

-- The channel is offline while OBS pushes.
on_offline : Config → Tick → State → State × List Effect
unfolding force since
on_offline c t s =
    let s' = record s { live_streak = 0; misses = s.misses + 1 } in
    if ltb s'.misses c.threshold
    then (s', [])
    else (if leb max_recovery_rounds s'.rounds
        then (if s'.exhausted then (s', []) else (record s' { exhausted = true }, gauge true ∷ []))
        else (if ltb (since s'.last_restart t.answered_at) c.cooldown
            then (s', [])
            else force c t s'))

-- The live-check and what follows it.
check : Config → Tick → Option Bool → State → State × List Effect
unfolding on_live on_offline since
check c t none s =
    if ltb (stale_after c) (since s.last_answer t.answered_at)
    then (record s { misses = 0 }, [])
    else (s, [])
check c t (some true) s = on_live c (record s { last_answer = some t.answered_at })
check c t (some false) s = on_offline c t (record s { last_answer = some t.answered_at })

abbrev stamp : Time → ℕ → Time
stamp none now = some now
stamp (some t) now = some t

-- The branch on OBS's state.
observe : Config → Tick → Option StreamState → State → State × List Effect
unfolding rearm check since
observe c t none s = (record s { misses = 0 }, [])
observe c t (some inactive) s =
    let s' = record s { misses = 0; reconnecting_since = none } in
    if ltb 0 s'.rounds then rearm s' else (s', [])
observe c t (some reconnecting) s =
    let s' = record s { reconnecting_since = stamp s.reconnecting_since t.seen_at } in
    if ltb (since s'.reconnecting_since t.seen_at) reconnect_grace
    then (s', [])
    else check c t t.live s'
observe c t (some steady) s = check c t t.live (record s { reconnecting_since = none })

unfoldable pub tick : Config → State → Tick → State × List Effect
unfolding observe
tick c s t = observe c t t.obs s

-- The loop, over the ticks until the context is canceled.
unfoldable pub run : Config → State → List Tick → State × List Effect
run c s [] = (s, [])
run c s (t ∷ ts) = let (s', es) = tick c s t in let (s'', es') = run c s' ts in (s'', es ++ es')
