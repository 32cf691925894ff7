-- ===== src/Watchdog/Silent/Tests.antt =====
-- WatchSilentDisconnect: the loop on concrete ticks, and the theorems at them.
use tripbot.Base.{
  ℕ, ◌+◌, ◌-◌, ◌*◌, ◌≤◌, ◌<◌, ◌≡◌, refl, inl, inr, Bool, true, false, Option, none, some, List, [],
  ◌∷◌, arith,
}
use tripbot.Clock.{since}
use tripbot.Watchdog.{steady}
use tripbot.Watchdog.Silent.{Config, Tick, State, restart, attempt, tell_restart, start, tick, run}
use tripbot.Watchdog.Silent.Rounds.{restarts, rearms, start-IsValid, run-restarts_le}
use tripbot.Watchdog.Silent.Evidence.{tick-restart_iff, restart_spacing}
use tripbot.Watchdog.Silent.Detection.{run_detects}

abbrev minute : ℕ
minute = 60000000000

abbrev conf : Config
conf = record {
  interval = minute;
  threshold = 3;
  cooldown = 10 * minute;
  on_restart = true;
  on_recovered = true;
}

-- The tick of minute `m`, with a steady output.
abbrev at : ℕ → Option Bool → Tick
at m live = record {
  obs = some steady;
  seen_at = m * minute;
  live = live;
  answered_at = m * minute;
  restart_ok = true;
}

abbrev dark : ℕ → Tick
dark m = at m (some false)

abbrev outage : List Tick
outage = dark 1 ∷ at 2 none ∷ dark 3 ∷ dark 4 ∷ []

outage_restarts : (run conf start.0 outage).1 ≡ restart ∷ attempt true ∷ tell_restart true ∷ []
unfolding run tick start
outage_restarts = refl

run-restarts_le_example :
    restarts (run conf start.0 outage).1 + 0 ≤ 3 + 3 * rearms (run conf start.0 outage).1
unfolding start
run-restarts_le_example = run-restarts_le conf start.0 outage (unfold start in start-IsValid)

abbrev stood_down : State
stood_down = record {
  misses = 5;
  live_streak = 0;
  last_restart = some 0;
  last_answer = some 0;
  reconnecting_since = none;
  rounds = 3;
  exhausted = true;
}

-- Two misses are counted, and no restart was run.
abbrev suspicious : State
suspicious = record {
  misses = 2;
  live_streak = 0;
  last_restart = none;
  last_answer = some minute;
  reconnecting_since = none;
  rounds = 0;
  exhausted = false;
}

tick-restart_iff_example : restarts (tick conf suspicious (dark 3)).1 ≡ 1
unfolding since
tick-restart_iff_example =
    (tick-restart_iff conf suspicious (dark 3)).1.1
      (inl refl, refl, omega arith, omega arith, omega arith)

-- The channel stays dark after the restart of minute 3, and the cooldown lasts until minute 13.
abbrev still_dark : List Tick
still_dark = dark 4 ∷ dark 5 ∷ dark 6 ∷ []

restart_spacing_example : 10 * minute ≤ (dark 13).answered_at - (dark 3).answered_at
unfolding run tick since
restart_spacing_example =
    restart_spacing conf suspicious (dark 3) still_dark (dark 13) refl refl (λ e. cc) refl

run_detects_example : 0 < restarts (run conf start.0 outage).1
unfolding start since
run_detects_example =
    run_detects conf start.0 outage (unfold start in omega arith) (unfold start in omega arith)
      (unfold start since in omega arith)
      (
        refl,
        inl (
          refl,
          (
            refl,
            inr (refl, unfold since in omega arith, (refl, inl (refl, (refl, inl (refl, tt))))),
          ),
        ),
      )
      (unfold start in omega arith)

-- The channel is back after the restart.
abbrev recovering : State
recovering = record suspicious { misses = 0; last_restart = some minute; rounds = 1 }

abbrev back : List Tick
back = at 5 (some true) ∷ at 6 (some true) ∷ at 7 (some true) ∷ []
