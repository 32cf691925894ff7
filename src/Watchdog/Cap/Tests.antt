-- ===== src/Watchdog/Cap/Tests.antt =====
-- WatchBroadcastCap on concrete ticks.
use tripbot.Base.{ℕ, ◌≡◌, refl, Bool, true, false, some, List, [], ◌∷◌, arith}
use tripbot.Watchdog.{steady}
use tripbot.Watchdog.Cap.{Config, Tick, restart, leave, start, tick, run}
use tripbot.Watchdog.Cap.Attempts.{restarts, planned, budget, run-planned}

abbrev conf : Config
conf = record { max_age = 100; on_restart = false }

abbrev at : ℕ → Bool → Tick
at now ok = record { obs = some steady; started = some (some 10); now = now; restart_ok = ok }

-- The first due tick fails and the second succeeds.
abbrev ticks : List Tick
ticks = at 50 true ∷ at 120 false ∷ at 130 true ∷ at 140 true ∷ at 150 true ∷ []

ticks_effects : (run conf start ticks).1 ≡ restart false ∷ restart true ∷ leave true ∷ []
unfolding run tick start
ticks_effects = refl

run-planned_example : restarts (run conf start ticks).1 ≡ planned conf 10 (budget 10 start) ticks
run-planned_example = run-planned conf 10 start ticks (ground arith)

planned_two : planned conf 10 3 ticks ≡ 2
unfolding planned
planned_two = refl
