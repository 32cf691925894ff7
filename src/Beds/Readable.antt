-- ===== src/Beds/Readable.antt =====
-- Store: a truthful store stays truthful when the source is read back.
use tripbot.Base.{
  codes, ◌≡◌, refl, ◌⊎◌, inl, inr, true, false, Option, none, some, [], Text, same_text, arith,
  Bool-cases, ap, subst,
}
use tripbot.Beds.Paths.{fallback_file, car_hum_file, valid_voicing}
use tripbot.Beds.Stations.{stream_url, station_from_url, AreNamed}
use tripbot.Beds.Store.{Bed, radio, carhum, album, Store, Source, World, Config, Env}
use tripbot.Beds.Fallback.{detect}
use tripbot.Beds.Sound.{
  Sound, stream, share, drone, heard, says_bed, says_fallback, IsTruthful, IsApart, IsSound,
}
use tripbot.Beds.Detect.{detected, unknown_stream, IsReadable, detect-IsTruthful}

-- The file of any voicing is that of a shipped one.
pub shipped_file :
    (v : Text) → (u : Text) × (valid_voicing u ≡ true) × (car_hum_file v ≡ car_hum_file u)
unfolding car_hum_file valid_voicing
shipped_file v = elim (Bool-cases (valid_voicing v)) [
  | inl shipped ↦ (v, shipped, refl)
  | inr other ↦ (codes "idle", refl, rw (car_hum_file, other) refl)
]

-- The four kinds of sound that a store can mean.
abbrev Means : Config → Store → Sound → Type 0
Means c s sound =
    (sound ≡ stream (stream_url c.stations s.station))
    ⊎ (sound ≡ share false)
    ⊎ (sound ≡ drone fallback_file true)
    ⊎ ((v : Text) × (valid_voicing v ≡ true) × (sound ≡ drone (car_hum_file v) true))

says_bed-Means : (c : Config) (s : Store) (bed : Bed) → Means c s (says_bed c s bed)
says_bed-Means c s radio = inl refl
says_bed-Means c s carhum =
    let (v, shipped, file) = shipped_file s.voicing in
    inr (inr (inr (v, shipped, ap (λ (f : Text). drone f true) file)))
says_bed-Means c s album = inr (inl refl)

says-Means :
    (c : Config) (s : Store) (fallback : Option Bed) → Means c s (says_fallback c s fallback)
says-Means c s none = says_bed-Means c s s.bed
says-Means c s (some radio) = inl refl
says-Means c s (some carhum) = inr (inr (inl refl))
says-Means c s (some album) = inr (inl refl)

local-IsReadable :
    (c : Config) (s : Store) (src : Source)
    → Means c s (heard c src)
    → src.is_local ≡ true
    → IsReadable c src
local-IsReadable c s src (inl e) here = ground (arith, e, here)
local-IsReadable c s src (inr (inl e)) here = inr (inl (here, ground arith, ground arith))
local-IsReadable c s src (inr (inr (inl e))) here =
    inr (inr (inl (here, ground arith, ground arith)))
local-IsReadable c s src (inr (inr (inr (v, shipped, e)))) here =
    inr (inr (inr (v, here, shipped, ground arith, ground arith)))

away_stream :
    (c : Config) (s : Store) (src : Source)
    → Means c s (heard c src)
    → src.is_local ≡ false
    → stream_url c.stations s.station ≡ src.input
away_stream c s src (inl e) away = ground (arith, e, away)
away_stream c s src (inr (inl e)) away = ground (arith, e, away)
away_stream c s src (inr (inr (inl e))) away = ground (arith, e, away)
away_stream c s src (inr (inr (inr (v, shipped, e)))) away = ground (arith, e, away)

-- A truthful store stays so when the source is read back.
pub IsTruthful-detect :
    (c : Config) (e : Env) (w : World)
    → IsApart c
    → IsSound c e
    → AreNamed c.stations
    → IsTruthful c w
    → IsTruthful c (detect c e w)
unfolding detect
IsTruthful-detect c e w apart sound named v = elim (Bool-cases e.answers) [
  | inr silent ↦ rw (detect, silent) v
  | inl answers ↦
      let again = λ (readable : IsReadable c w.source).
        detect-IsTruthful c e w apart sound named answers readable v.tracks v.waiting v.timers in
      elim (Bool-cases w.source.is_local) [
        | inl here ↦ again (
            local-IsReadable c w.store w.source
              (subst (Means c w.store) v.agrees (says-Means c w.store w.store.fallback)) here)
        | inr away ↦ elim (Bool-cases (same_text (station_from_url c.stations w.source.input) [])) [
          | inr known ↦ again (inl (away, known))
          | inl unknown ↦ detected c e w sound v.tracks v.waiting v.timers (
              unknown_stream c e w answers away unknown (
                away_stream c w.store w.source
                  (subst (Means c w.store) v.agrees (says-Means c w.store w.store.fallback)) away))
        ]
      ]
]
