-- ===== src/Audio/Swaps.antt =====
-- Watch: when the source is swapped.
use tripbot.Base.{
  ℕ, ◌+◌, ◌-◌, ◌≤◌, ◌≡◌, refl, ◌∙◌, ◌≢◌, ◌⊎◌, ◌↔◌, Bool, true, false, Option, none, some, List, [],
  ◌∷◌, arith, count, count-append, All, ◌&&◌, if◌then◌else◌,
}
use tripbot.Clock.{since}
use tripbot.Audio.{
  MediaState, media_state_down, Config, Tick, State, Effect, swap_to_fallback, swap_to_radio, tick,
  run,
}

abbrev pub is_swap : {Db : Type 0} → Effect Db → Bool
is_swap (swap_to_fallback b) = b
is_swap (swap_to_radio b) = b
is_swap _ = false

abbrev is_call : {Db : Type 0} → Effect Db → Bool
is_call (swap_to_fallback b) = true
is_call (swap_to_radio b) = true
is_call _ = false

-- The swaps that OBS accepted, and the swaps that were tried.
abbrev pub swaps : {Db : Type 0} → List (Effect Db) → ℕ
swaps {Db} = count (is_swap {Db = Db})

abbrev pub swap_calls : {Db : Type 0} → List (Effect Db) → ℕ
swap_calls {Db} = count (is_call {Db = Db})

abbrev pub DownOrSilent :
    {Db : Type 0} → (Db → Db → Bool) → Config Db → Tick Db → MediaState → Type 0
DownOrSilent at_most c t m =
    (media_state_down m ≡ true) ⊎ ((t.fresh && at_most t.level c.silence_db) ≡ true)

abbrev pub threshold : {Db : Type 0} → Config Db → MediaState → ℕ
threshold c m = if media_state_down m then c.fail_threshold else c.silence_threshold

-- What leads to a swap onto the fallback, with OBS's media state.
abbrev pub FallsBack :
    {Db : Type 0} → (Db → Db → Bool) → Config Db → State → Tick Db → Option MediaState → Type 0
FallsBack at_most c s t none = ⊥
FallsBack at_most c s t (some m) =
    (t.local ≡ some false) × DownOrSilent at_most c t m × (threshold c m ≤ s.fail_misses + 1)

-- What leads to a swap back to the radio.
abbrev pub Returns : {Db : Type 0} → Config Db → State → Tick Db → Type 0
Returns c s t =
    (t.media ≢ none)
    × (t.local ≡ some true)
    × (s.probe_skip ≤ s.skipped)
    × (t.reachable ≡ true)
    × (c.recover_threshold ≤ s.recover_hits + 1)

module _ {Db : Type 0} (at_most : Db → Db → Bool) where
  -- A tick tries a swap exactly when the radio is the selected bed, the last swap is a cooldown ago,
  -- and either the radio's own source has been down or silent for the threshold, or the source is
  -- local and the probe due now finds the radio reachable for the threshold.
  pub tick-swap_iff :
      (c : Config Db) (s : State) (t : Tick Db)
      → (swap_calls (tick at_most c s t).1 ≡ 1) ↔ (
          (t.radio_selected ≡ true)
          × (c.cooldown ≤ since s.last_swap t.now)
          × (FallsBack at_most c s t t.media ⊎ Returns c s t))
  unfolding tick
  tick-swap_iff c s t = (λ h. ground arith, λ h. ground arith)

  tick-swaps_le :
      (c : Config Db) (s : State) (t : Tick Db)
      → (swaps (tick at_most c s t).1 ≤ swap_calls (tick at_most c s t).1)
        × (swap_calls (tick at_most c s t).1 ≤ 1)
  unfolding tick
  tick-swaps_le c s t = ground arith

  tick-last_swap :
      (c : Config Db) (s : State) (t : Tick Db)
      → swaps (tick at_most c s t).1 ≡ 0
      → (tick at_most c s t).0.last_swap ≡ s.last_swap
  unfolding tick
  tick-last_swap c s t h = ground arith

  tick_stamps :
      (c : Config Db) (s : State) (t : Tick Db)
      → swaps (tick at_most c s t).1 ≡ 1
      → (tick at_most c s t).0.last_swap ≡ some t.swapped_at
  unfolding tick
  tick_stamps c s t h = ground arith

  run-last_swap :
      (c : Config Db) (s : State) (ts : List (Tick Db))
      → swaps (run at_most c s ts).1 ≡ 0
      → (run at_most c s ts).0.last_swap ≡ s.last_swap
  unfolding run
  run-last_swap c s [] h = refl
  run-last_swap c s (t ∷ ts) h =
      let u = tick at_most c s t in
      let split = count-append (is_swap {Db = Db}) u.1 (run at_most c u.0 ts).1 in
      run-last_swap c u.0 ts (omega (arith, split)) ∙ tick-last_swap c s t (omega (arith, split))

  -- Between a swap that OBS accepts and the next one that is tried lies at least the cooldown,
  -- whatever happens in between.
  pub swap_spacing :
      (c : Config Db) (s : State) (t : Tick Db) (ts : List (Tick Db)) (u : Tick Db)
      → let after = run at_most c (tick at_most c s t).0 ts in
        swaps (tick at_most c s t).1 ≡ 1
        → swaps after.1 ≡ 0
        → swap_calls (tick at_most c after.0 u).1 ≡ 1
        → c.cooldown ≤ u.now - t.swapped_at
  unfolding since
  swap_spacing c s t ts u first quiet second =
      let after = run at_most c (tick at_most c s t).0 ts in
      ground (
        arith,
        tick_stamps c s t first,
        run-last_swap c (tick at_most c s t).0 ts quiet,
        (tick-swap_iff c after.0 u).0 second,
      )

  tick_other_bed :
      (c : Config Db) (s : State) (t : Tick Db)
      → t.radio_selected ≡ false
      → (swap_calls (tick at_most c s t).1 ≡ 0)
        × ((tick at_most c s t).0.fail_misses ≤ s.fail_misses)
        × ((tick at_most c s t).0.last_swap ≡ s.last_swap)
  unfolding tick
  tick_other_bed c s t h = ground arith

  -- While another bed than the radio is selected, no swap is tried and no misses are added, and the
  -- last swap stays the last one.
  pub run_other_bed :
      (c : Config Db) (s : State) (ts : List (Tick Db))
      → All (λ t. t.radio_selected ≡ false) ts
      → (swap_calls (run at_most c s ts).1 ≡ 0)
        × ((run at_most c s ts).0.fail_misses ≤ s.fail_misses)
        × ((run at_most c s ts).0.last_swap ≡ s.last_swap)
  unfolding run
  run_other_bed c s [] h = ground arith
  run_other_bed c s (t ∷ ts) h =
      let u = tick at_most c s t in
      ground (
        arith,
        tick_other_bed c s t h.0,
        run_other_bed c u.0 ts h.1,
        count-append (is_call {Db = Db}) u.1 (run at_most c u.0 ts).1,
      )
