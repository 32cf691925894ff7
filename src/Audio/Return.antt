-- ===== src/Audio/Return.antt =====
-- Watch: a radio that is back is swapped in.
use tripbot.Base.{ℕ, ◌+◌, ◌-◌, ◌≤◌, ◌≡◌, ◌≢◌, Bool, true, false, none, some, List, count}
use tripbot.Clock.{Time, since}
use tripbot.Audio.{Config, Tick, State, Effect, swap_to_radio}

abbrev is_return : {Db : Type 0} → Effect Db → Bool
is_return (swap_to_radio b) = b
is_return _ = false

abbrev pub returns : {Db : Type 0} → List (Effect Db) → ℕ
returns {Db} = count (is_return {Db = Db})

-- The source is on the local fallback of the selected radio, the radio is reachable, the cooldown
-- is over, and OBS would accept a swap.
abbrev pub IsBack : {Db : Type 0} → Config Db → Time → Tick Db → Type 0
IsBack c last t =
    (t.media ≢ none)
    × (t.radio_selected ≡ true)
    × (t.local ≡ some true)
    × (t.reachable ≡ true)
    × (c.cooldown ≤ since last t.now)
    × (t.swap_ok ≡ true)

-- The ticks that the probe still sits out, and the probes that are still wanted.
abbrev pub wait : {Db : Type 0} → Config Db → State → ℕ
wait c s = (s.probe_skip - s.skipped) + (c.recover_threshold - s.recover_hits)
