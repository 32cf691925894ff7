-- ===== src/Beds/Sound.antt =====
-- Store: what the store says is on air, what the OBS source plays, and the invariant that these
-- agree.
use tripbot.Base.{
  ℕ, ◌≡◌, Bool, true, false, Option, none, some, List, All, count, length, Text, same_text,
  if◌then◌else◌, ◌<◌,
}
use tripbot.Beds.Paths.{under, fallback_file, car_hum_file}
use tripbot.Beds.Stations.{stream_url}
use tripbot.Beds.Library.{fallback_tracks}
use tripbot.Beds.Store.{Bed, radio, carhum, album, valid, Switch, Store, Source, World, Config, Env}

-- A stream, a file of the music share, or another local file; the files with their loop flag.
pub data Sound : Type 0 where
  stream : Text → Sound
  share : Bool → Sound
  drone : Text → Bool → Sound

-- What the source plays.
abbrev pub heard : Config → Source → Sound
heard c src =
    if src.is_local
    then (if under src.local_file c.music_dir
        then share src.looping
        else drone src.local_file src.looping)
    else stream src.input

abbrev pub says_bed : Config → Store → Bed → Sound
says_bed c s radio = stream (stream_url c.stations s.station)
says_bed c s carhum = drone (car_hum_file s.voicing) true
says_bed c s album = share false

abbrev pub says_fallback : Config → Store → Option Bed → Sound
says_fallback c s none = says_bed c s s.bed
says_fallback c s (some radio) = stream (stream_url c.stations s.station)
says_fallback c s (some carhum) = drone fallback_file true
says_fallback c s (some album) = share false

-- What the store says is on air: a fallback that stands in, or the selected bed.
abbrev pub says : Config → Store → Sound
says c s = says_fallback c s s.fallback

-- Only the drone and the album stand in, and only for the radio.
abbrev pub StandsIn : Option Bed → Bed → Type 0
StandsIn none bed = Unit
StandsIn (some radio) bed = ⊥
StandsIn (some carhum) bed = bed ≡ radio
StandsIn (some album) bed = bed ≡ radio

abbrev pub InShare : Config → List Text → Type 0
InShare c = All (λ t. under t c.music_dir ≡ true)

abbrev pub IsSelectable : Option Switch → Type 0
IsSelectable none = Unit
IsSelectable (some sw) = valid sw.bed ≡ true

-- The store is truthful.
pub record IsTruthful (c : Config) (w : World) : Type 0 where
  pub chosen : valid w.store.bed ≡ true
  pub stands_in : StandsIn w.store.fallback w.store.bed
  pub agrees : says c w.store ≡ heard c w.source
  pub tracks : InShare c w.store.tracks
  pub waiting : IsSelectable w.store.pending
  pub timers : All (λ t. valid t.1.bed ≡ true) w.timers

-- The drones lie outside the music share, as in the image.
pub record IsApart (c : Config) : Type 0 where
  pub drones : (v : Text) → under (car_hum_file v) c.music_dir ≡ false
  pub copy : under fallback_file c.music_dir ≡ false

-- `rand.Shuffle` permutes.
pub record Permutes (f : List Text → List Text) : Type 0 where
  pub same_count : (t : Text) (ts : List Text) → count (same_text t) (f ts) ≡ count (same_text t) ts
  pub same_length : (ts : List Text) → length (f ts) ≡ length ts

-- What the library holds lies in the share, the shuffle permutes, and `rand.IntN` stays in range.
pub record IsSound (c : Config) (e : Env) : Type 0 where
  pub library : InShare c (fallback_tracks e.library)
  pub permutes : Permutes e.shuffle
  pub drawn : (n : ℕ) → 0 < n → e.draw n < n

-- A store with the same choices and the same queue.
abbrev pub SameChoice : Store → Store → Type 0
SameChoice s s' =
    (s'.bed ≡ s.bed)
    × (s'.fallback ≡ s.fallback)
    × (s'.station ≡ s.station)
    × (s'.voicing ≡ s.voicing)
    × (s'.pending ≡ s.pending)
    × (s'.gen ≡ s.gen)
    × (s'.timer ≡ s.timer)
