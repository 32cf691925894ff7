-- ===== src/Audio/Backoff.antt =====
-- Watch: how often the recovery probe opens a connection to the radio.
use tripbot.Base.{
  ℕ, ◌+◌, ◌*◌, ◌≤◌, ◌≡◌, refl, ◌≢◌, ◌⊎◌, inl, Bool, true, false, some, List, [], ◌∷◌, arith, count,
  count-append, All, length, ◌==◌, if◌then◌else◌,
}
use tripbot.Audio.{Config, Tick, State, Effect, probe, max_probe_skip, start, tick, run}

-- The gaps that the doubling goes through.
abbrev IsGap : ℕ → Type 0
IsGap p = (p ≡ 0) ⊎ (p ≡ 1) ⊎ (p ≡ 3) ⊎ (p ≡ 7) ⊎ (p ≡ 15) ⊎ (p ≡ max_probe_skip)

pub record IsPaced (s : State) : Type 0 where
  pub gap : IsGap s.probe_skip
  pub within : s.skipped ≤ s.probe_skip

pub start-IsPaced : IsPaced start
unfolding start
start-IsPaced = record { gap = inl refl; within = ground arith }

abbrev is_probe : {Db : Type 0} → Effect Db → Bool
is_probe (probe b) = true
is_probe _ = false

abbrev pub probes : {Db : Type 0} → List (Effect Db) → ℕ
probes {Db} = count (is_probe {Db = Db})

-- What the growing gaps of a new outage cost over one probe in 32 ticks.
abbrev pub debt : ℕ → ℕ
debt p =
    if p == 0
    then 129
    else (if p == 1
        then 98
        else (if p == 3 then 68 else (if p == 7 then 40 else (if p == 15 then 16 else 0))))

-- A tick on which the source is not seen back on the radio and no probe could succeed.
abbrev pub IsStranded : {Db : Type 0} → Tick Db → Type 0
IsStranded t = (t.local ≢ some false) × (t.reachable ≡ false)

skipped_debt : (s : State) → IsPaced s → debt s.probe_skip + s.skipped ≤ 129
skipped_debt s v = ground arith

module _ {Db : Type 0} (at_most : Db → Db → Bool) where
  -- Every tick keeps the probe's gap one less than a power of two and at most 31 ticks, and never
  -- sits out more ticks than the gap.
  pub tick-IsPaced :
      (c : Config Db) (s : State) (t : Tick Db) → IsPaced s → IsPaced (tick at_most c s t).0
  unfolding tick
  tick-IsPaced c s t v = ground arith

  tick-probes :
      (c : Config Db) (s : State) (t : Tick Db)
      → IsPaced s
      → IsStranded t
      → let u = tick at_most c s t in
        32 * probes u.1 + debt u.0.probe_skip + u.0.skipped ≤ 1 + debt s.probe_skip + s.skipped
  unfolding tick
  tick-probes c s t v h = ground arith

  run-probes :
      (c : Config Db) (s : State) (ts : List (Tick Db))
      → IsPaced s
      → All IsStranded ts
      → 32 * probes (run at_most c s ts).1 ≤ length ts + debt s.probe_skip + s.skipped
  unfolding run
  run-probes c s [] v h = omega arith
  run-probes c s (t ∷ ts) v h =
      let u = tick at_most c s t in
      omega (
        arith,
        tick-probes c s t v h.0,
        run-probes c u.0 ts (tick-IsPaced c s t v) h.1,
        count-append (is_probe {Db = Db}) u.1 (run at_most c u.0 ts).1,
      )

  -- Over ticks on which the source is not on the radio and the radio is not reachable, 32 times the
  -- probes are at most the ticks and 129, from any state that keeps the invariant of the gap.
  pub run-probes_le :
      (c : Config Db) (s : State) (ts : List (Tick Db))
      → IsPaced s
      → All IsStranded ts
      → 32 * probes (run at_most c s ts).1 ≤ length ts + 129
  run-probes_le c s ts v h = ground (arith, run-probes c s ts v h, skipped_debt s v)
