-- ===== src/Watchdog/Cap.antt =====
-- pkg/obs/watchdog/cap.go, WatchBroadcastCap: one tick of the loop as a function on the loop's
-- variables, and the loop as a fold over the ticks.
pub mod Attempts
mod Tests
use tripbot.Base.{
  ℕ, ◌+◌, Bool, true, false, Option, none, some, List, [], ◌∷◌, ◌++◌, ◌||◌, ◌==◌, ltb, leb,
  if◌then◌else◌,
}
use tripbot.Clock.{Time}
use tripbot.Watchdog.{StreamState, steady, reconnecting, inactive}

pub record Config : Type 0 where
  pub max_age : ℕ
  -- Whether the optional hook is set.
  pub on_restart : Bool

-- What one tick reads: OBS's state (`none` when that fails), when the platform's broadcast began
-- (`none` when that fails, `some none` for the zero time), the clock, and a restart's success.
pub record Tick : Type 0 where
  pub obs : Option StreamState
  pub started : Option Time
  pub now : ℕ
  pub restart_ok : Bool

pub record State : Type 0 where
  pub restarted_for : Time
  pub warned_for : Time
  pub attempts : ℕ
  pub restarted : Bool

-- `leave` is the warning, with whether a restart had succeeded; `tell` is the optional hook.
pub data Effect : Type 0 where
  restart : Bool → Effect
  tell : Bool → Effect
  leave : Bool → Effect

abbrev pub cap_restart_attempts : ℕ
cap_restart_attempts = 3

unfoldable pub start : State
start = record { restarted_for = none; warned_for = none; attempts = 0; restarted = false }

-- `Time.Equal`.
abbrev pub equal : Time → Time → Bool
equal none none = true
equal none (some u) = false
equal (some t) none = false
equal (some t) (some u) = t == u

-- Forget the attempts of another broadcast.
turn_to : ℕ → State → State
turn_to began s =
    if equal (some began) s.restarted_for
    then s
    else record s { restarted_for = some began; attempts = 0; restarted = false }

-- A broadcast that is old enough.
attempt : Config → Bool → ℕ → State → State × List Effect
attempt c succeeds began s =
    if s.restarted || leb cap_restart_attempts s.attempts
    then (if equal (some began) s.warned_for
        then (s, [])
        else (record s { warned_for = some began }, leave s.restarted ∷ []))
    else (
      (if succeeds
          then record s { attempts = s.attempts + 1; restarted = true }
          else record s { attempts = s.attempts + 1 }),
      restart succeeds ∷ (if c.on_restart then tell succeeds ∷ [] else []),
    )

-- The start time answered; an age below `max_age` is one that starts after `now - max_age`.
consider : Config → Tick → Option Time → State → State × List Effect
unfolding turn_to attempt
consider c t none s = (s, [])
consider c t (some none) s = (s, [])
consider c t (some (some began)) s =
    if ltb t.now (began + c.max_age)
    then (s, [])
    else attempt c t.restart_ok began (turn_to began s)

observe : Config → Tick → Option StreamState → State → State × List Effect
unfolding consider
observe c t (some steady) s = consider c t t.started s
observe c t (some reconnecting) s = (s, [])
observe c t (some inactive) s = (s, [])
observe c t none s = (s, [])

unfoldable pub tick : Config → State → Tick → State × List Effect
unfolding observe
tick c s t = observe c t t.obs s

unfoldable pub run : Config → State → List Tick → State × List Effect
run c s [] = (s, [])
run c s (t ∷ ts) = let (s', es) = tick c s t in let (s'', es') = run c s' ts in (s'', es ++ es')
