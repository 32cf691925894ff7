-- ===== src/Audio/Outage.antt =====
-- Watch: a radio that is down or silent is swapped out.
use tripbot.Base.{
  ℕ, ◌+◌, ◌≤◌, ◌<◌, ◌≡◌, ◌≢◌, ◌⊎◌, inl, inr, Bool, true, false, Option, none, some, List, [], ◌∷◌,
  arith, count, count-append, All, if◌then◌else◌,
}
use tripbot.Clock.{Time, since}
use tripbot.Audio.{MediaState, Config, Tick, State, Effect, swap_to_fallback, tick, run}
use tripbot.Audio.Swaps.{DownOrSilent, threshold}

abbrev is_fallback : {Db : Type 0} → Effect Db → Bool
is_fallback (swap_to_fallback b) = b
is_fallback _ = false

abbrev pub fallbacks : {Db : Type 0} → List (Effect Db) → ℕ
fallbacks {Db} = count (is_fallback {Db = Db})

abbrev answered : Option MediaState → Option Bool → Bool
answered (some m) (some local) = true
answered _ _ = false

-- OBS answered both of the tick's questions.
abbrev pub is_seen : {Db : Type 0} → Tick Db → Bool
is_seen t = answered t.media t.local

abbrev BadMedia :
    {Db : Type 0} → (Db → Db → Bool) → Config Db → ℕ → Tick Db → Option MediaState → Type 0
BadMedia at_most c limit t none = Unit {0}
BadMedia at_most c limit t (some m) = DownOrSilent at_most c t m × (threshold c m ≤ limit)

-- The radio is selected, its own source is down or silent, with a threshold within the limit, if
-- OBS answered; the cooldown is over and OBS would accept a swap.
abbrev pub IsBad : {Db : Type 0} → (Db → Db → Bool) → Config Db → ℕ → Time → Tick Db → Type 0
IsBad at_most c limit last t =
    (t.radio_selected ≡ true)
    × (t.local ≢ some true)
    × BadMedia at_most c limit t t.media
    × (c.cooldown ≤ since last t.now)
    × (t.swap_ok ≡ true)

module _ {Db : Type 0} (at_most : Db → Db → Bool) where
  tick_bad :
      (c : Config Db) (limit : ℕ) (s : State) (t : Tick Db)
      → IsBad at_most c limit s.last_swap t
      → (fallbacks (tick at_most c s t).1 ≡ 1)
        ⊎ (((tick at_most c s t).0.fail_misses ≡ s.fail_misses + (if is_seen t then 1 else 0))
            × ((tick at_most c s t).0.last_swap ≡ s.last_swap)
            × (((is_seen t ≡ true) × (s.fail_misses + 1 < limit)) ⊎ (is_seen t ≡ false)))
  unfolding tick
  tick_bad c limit s t b = ground arith

  -- Over ticks with the radio selected, the cooldown over and OBS accepting swaps, on which the
  -- radio's own source is down or silent whenever OBS answers: once OBS has answered on one of
  -- them, and on as many, with the misses before, as a limit that no threshold among them exceeds,
  -- the source has been swapped onto the fallback. Ticks on which OBS does not answer only delay the swap.
  pub run_falls_back :
      (c : Config Db) (limit : ℕ) (s : State) (ts : List (Tick Db))
      → All (IsBad at_most c limit s.last_swap) ts
      → 0 < count is_seen ts
      → limit ≤ s.fail_misses + count is_seen ts
      → 0 < fallbacks (run at_most c s ts).1
  unfolding run
  run_falls_back c limit s [] b some_seen enough = absurd (omega arith)
  run_falls_back c limit s (t ∷ ts) b some_seen enough =
      let u = tick at_most c s t in
      let split = count-append (is_fallback {Db = Db}) u.1 (run at_most c u.0 ts).1 in
      elim (tick_bad c limit s t b.0) [
        | inl hit ↦ omega (arith, hit, split)
        | inr (m, k, short) ↦
            omega
              (arith, split, run_falls_back c limit u.0 ts (rw k b.1) (ground arith) (ground arith))
      ]
