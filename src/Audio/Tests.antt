-- ===== src/Audio/Tests.antt =====
-- Watch on concrete ticks, with levels in whole decibels below zero: `at_most` turns around.
use tripbot.Base.{
  ℕ, zero, suc, ◌+◌, ◌*◌, ◌<◌, ◌≡◌, refl, Bool, true, false, none, some, List, [], ◌∷◌, arith, leb,
}
use tripbot.Clock.{since}
use tripbot.Audio.{playing, ended, Config, Tick, State, start, tick, run}
use tripbot.Audio.Outage.{fallbacks, run_falls_back}

abbrev quieter : ℕ → ℕ → Bool
quieter a b = leb b a

abbrev second : ℕ
second = 1000000000

-- `DefaultConfig`.
abbrev conf : Config ℕ
conf = record {
  fail_threshold = 3;
  silence_threshold = 9;
  recover_threshold = 4;
  silence_db = 50;
  cooldown = 120 * second;
}

-- The radio's own source with its media ended, at second `n`.
abbrev down : ℕ → Tick ℕ
down n = record {
  level = 60;
  fresh = false;
  media = some ended;
  radio_selected = true;
  local = some false;
  now = n * second;
  reachable = false;
  swap_ok = true;
  advance_ok = true;
  swapped_at = n * second;
}

-- OBS does not answer.
abbrev blind : ℕ → Tick ℕ
blind n = record (down n) { media = none }

-- On the fallback, with the radio away or back.
abbrev away : ℕ → Tick ℕ
away n = record (down n) { media = some playing; local = some true }

abbrev back : ℕ → Tick ℕ
back n = record (away n) { reachable = true }

abbrev outage : List (Tick ℕ)
outage = down 7 ∷ blind 14 ∷ down 21 ∷ down 28 ∷ []

outage_swaps : fallbacks (run quieter conf start outage).1 ≡ 1
unfolding run tick start since
outage_swaps = refl

run_falls_back_example : 0 < fallbacks (run quieter conf start outage).1
run_falls_back_example =
    run_falls_back quieter conf 3 start outage (unfold start since in ground arith)
      (unfold start in omega arith) (unfold start in omega arith)

abbrev hours : List (Tick ℕ)
hours = away 35 ∷ away 42 ∷ away 49 ∷ away 56 ∷ []

abbrev failing : State
failing = record {
  fail_misses = 2;
  recover_hits = 0;
  last_swap = none;
  synced = true;
  probe_skip = 0;
  skipped = 0;
}

-- The radio is back at once, and the swap back waits for the cooldown.
abbrev quick : List (Tick ℕ)
quick = back 28 ∷ back 35 ∷ back 42 ∷ back 49 ∷ back 56 ∷ []

-- Ticks long after the last swap.
abbrev later : ℕ → List (Tick ℕ)
later zero = []
later (suc n) = back (1000 + n) ∷ later n

abbrev waiting : State
waiting = record failing { fail_misses = 0; last_swap = some 0; probe_skip = 31; skipped = 2 }
