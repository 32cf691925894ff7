-- ===== src/Beds/Detect.antt =====
-- Store: what Detect reads back off the source.
use tripbot.Base.{
  ◌≡◌, refl, ◌⊎◌, inl, inr, true, false, none, some, [], All, Text, same_text, same_text_self,
  arith, ap, ◌∙◌, sym,
}
use tripbot.Beds.Paths.{
  under, fallback_file, car_hum_file, valid_voicing, valid_voicing_cases, voicing_from_file,
  voicing_from_file-car_hum_file,
}
use tripbot.Beds.Stations.{stream_url, station_from_url, stream_url-station_from_url, AreNamed}
use tripbot.Beds.Library.{fallback_tracks}
use tripbot.Beds.Store.{radio, carhum, album, valid, Store, Source, World, Config, Env}
use tripbot.Beds.Fallback.{detect, or_kept}
use tripbot.Beds.Sound.{heard, says, StandsIn, InShare, IsSelectable, IsTruthful, IsApart, IsSound}
use tripbot.Beds.Order.{All-shuffle}
use tripbot.Beds.Queue

pub car_hum_file-ne-copy :
    (v : Text) → valid_voicing v ≡ true → same_text (car_hum_file v) fallback_file ≡ false
unfolding car_hum_file
car_hum_file-ne-copy v valid' =
    valid_voicing_cases (λ t. same_text (car_hum_file t) fallback_file ≡ false) v valid' refl refl
      refl refl

shipped-named : (v : Text) → valid_voicing v ≡ true → same_text v [] ≡ false
shipped-named v shipped =
    valid_voicing_cases (λ t. same_text t [] ≡ false) v shipped refl refl refl refl

-- A stream: the radio, on the station with this URL if there is one.
reads_stream :
    (c : Config) (e : Env) (w : World)
    → e.answers ≡ true
    → w.source.is_local ≡ false
    → let s = (detect c e w).store in
      (s.bed ≡ radio)
      × (s.fallback ≡ none)
      × (s.station ≡ or_kept (station_from_url c.stations w.source.input) w.store.station)
      × (s.tracks ≡ w.store.tracks)
unfolding detect
reads_stream c e w answers away = ground arith

reads_copy :
    (c : Config) (e : Env) (w : World)
    → e.answers ≡ true
    → w.source.is_local ≡ true
    → under w.source.local_file c.music_dir ≡ false
    → same_text w.source.local_file fallback_file ≡ true
    → let s = (detect c e w).store in
      (s.bed ≡ radio) × (s.fallback ≡ some carhum) × (s.tracks ≡ w.store.tracks)
unfolding detect
reads_copy c e w answers here out copy = ground arith

reads_drone :
    (c : Config) (e : Env) (w : World)
    → e.answers ≡ true
    → w.source.is_local ≡ true
    → under w.source.local_file c.music_dir ≡ false
    → same_text w.source.local_file fallback_file ≡ false
    → let s = (detect c e w).store in
      (s.bed ≡ carhum)
      × (s.fallback ≡ none)
      × (s.voicing ≡ or_kept (voicing_from_file w.source.local_file) w.store.voicing)
      × (s.tracks ≡ w.store.tracks)
unfolding detect
reads_drone c e w answers here out other = ground arith

reads_track :
    (c : Config) (e : Env) (w : World)
    → e.answers ≡ true
    → w.source.is_local ≡ true
    → under w.source.local_file c.music_dir ≡ true
    → let s = (detect c e w).store in (s.bed ≡ radio) × (s.fallback ≡ some album)
unfolding detect
reads_track c e w answers here in' = ground arith

-- A source that the store can read: a stream of the list, an unlooped file of the share, the
-- looped copy of the drone, or a looped drone of the image.
abbrev pub IsReadable : Config → Source → Type 0
IsReadable c src =
    ((src.is_local ≡ false) × (same_text (station_from_url c.stations src.input) [] ≡ false))
    ⊎ ((src.is_local ≡ true) × (under src.local_file c.music_dir ≡ true) × (src.looping ≡ false))
    ⊎ ((src.is_local ≡ true) × (src.local_file ≡ fallback_file) × (src.looping ≡ true))
    ⊎ ((v : Text) × (src.is_local ≡ true)
        × (valid_voicing v ≡ true)
        × (src.local_file ≡ car_hum_file v)
        × (src.looping ≡ true))

-- What reading back brings the parts of the invariant on air to.
abbrev pub ReadsTrue : Config → Env → World → Type 0
ReadsTrue c e w =
    let s = (detect c e w).store in
    (valid s.bed ≡ true) × StandsIn s.fallback s.bed × (says c s ≡ heard c w.source)

stream_true :
    (c : Config) (s : Store) (src : Source)
    → s.bed ≡ radio
    → s.fallback ≡ none
    → stream_url c.stations s.station ≡ src.input
    → src.is_local ≡ false
    → (valid s.bed ≡ true) × StandsIn s.fallback s.bed × (says c s ≡ heard c src)
unfolding valid
stream_true c s src bed fallback url away = ground arith

drone_true :
    (c : Config) (s : Store) (src : Source)
    → s.bed ≡ carhum
    → s.fallback ≡ none
    → src.local_file ≡ car_hum_file s.voicing
    → src.is_local ≡ true
    → src.looping ≡ true
    → under src.local_file c.music_dir ≡ false
    → (valid s.bed ≡ true) × StandsIn s.fallback s.bed × (says c s ≡ heard c src)
unfolding valid
drone_true c s src bed fallback file here loops out = ground arith

or_kept_found : (found kept : Text) → same_text found [] ≡ false → or_kept found kept ≡ found
or_kept_found found kept h = rw (or_kept, h) refl

read_true :
    (c : Config) (e : Env) (w : World)
    → IsApart c
    → AreNamed c.stations
    → e.answers ≡ true
    → IsReadable c w.source
    → ReadsTrue c e w
unfolding valid
read_true c e w apart named answers (inl (away, known)) =
    let (bed, fallback, station, tracks) = reads_stream c e w answers away in
    let url = stream_url-station_from_url c.stations w.source.input named known in
    stream_true c (detect c e w).store w.source bed fallback
      (ap (stream_url c.stations) (station ∙ or_kept_found _ w.store.station known) ∙ url) away
read_true c e w apart named answers (inr (inl (here, in', once))) =
    let (bed, fallback) = reads_track c e w answers here in' in
    ground (arith, bed, fallback, here, in', once)
read_true c e w apart named answers (inr (inr (inl (here, copy, loops)))) =
    let out : under w.source.local_file c.music_dir ≡ false = rw copy apart.copy in
    let (bed, fallback, tracks) =
      reads_copy c e w answers here out (rw copy (same_text_self fallback_file)) in
    ground (arith, bed, fallback, here, copy, out, loops)
read_true c e w apart named answers (inr (inr (inr (v, here, shipped, file, loops)))) =
    let out : under w.source.local_file c.music_dir ≡ false = rw file (apart.drones v) in
    let (bed, fallback, voicing, tracks) =
      reads_drone c e w answers here out (rw file (car_hum_file-ne-copy v shipped)) in
    let read : voicing_from_file w.source.local_file ≡ v =
      ap voicing_from_file file ∙ voicing_from_file-car_hum_file v shipped in
    let kept : (detect c e w).store.voicing ≡ v =
      voicing ∙ (rw read (or_kept_found v w.store.voicing (shipped-named v shipped))) in
    drone_true c (detect c e w).store w.source bed fallback (file ∙ sym (ap car_hum_file kept)) here
      loops out

pub detect-source : (c : Config) (e : Env) (w : World) → (detect c e w).source ≡ w.source
unfolding detect
detect-source c e w = ground arith

detect-order :
    (c : Config) (e : Env) (w : World)
    → ((detect c e w).store.tracks ≡ w.store.tracks)
      ⊎ ((detect c e w).store.tracks ≡ e.shuffle (fallback_tracks e.library))
unfolding detect
detect-order c e w = ground arith

detect-tracks :
    (c : Config) (e : Env) (w : World)
    → IsSound c e
    → InShare c w.store.tracks
    → InShare c (detect c e w).store.tracks
detect-tracks c e w sound shared = elim (detect-order c e w) [
  | inl kept ↦ rw kept shared
  | inr anew ↦ rw anew (
      All-shuffle (λ t. under t c.music_dir ≡ true) e.shuffle (fallback_tracks e.library)
        sound.permutes sound.library)
]

-- With the parts on air true, all of the invariant holds.
pub detected :
    (c : Config) (e : Env) (w : World)
    → IsSound c e
    → InShare c w.store.tracks
    → IsSelectable w.store.pending
    → All (λ t. valid t.1.bed ≡ true) w.timers
    → ReadsTrue c e w
    → IsTruthful c (detect c e w)
detected c e w sound shared waiting timers (chosen, stands, agrees) =
    let (ts, gen, timer, pending) = Queue.detect-SameQueue c e w in
    record {
      chosen = chosen;
      stands_in = stands;
      agrees = agrees ∙ ap (heard c) (sym (detect-source c e w));
      tracks = detect-tracks c e w sound shared;
      waiting = rw pending waiting;
      timers = rw ts timers;
    }

-- Reading back a source that the store can read makes it truthful again, whatever it said before.
pub detect-IsTruthful :
    (c : Config) (e : Env) (w : World)
    → IsApart c
    → IsSound c e
    → AreNamed c.stations
    → e.answers ≡ true
    → IsReadable c w.source
    → InShare c w.store.tracks
    → IsSelectable w.store.pending
    → All (λ t. valid t.1.bed ≡ true) w.timers
    → IsTruthful c (detect c e w)
detect-IsTruthful c e w apart sound named answers readable shared waiting timers =
    detected c e w sound shared waiting timers (read_true c e w apart named answers readable)

-- A stream that is no station's leaves the store on the radio and its station.
pub unknown_stream :
    (c : Config) (e : Env) (w : World)
    → e.answers ≡ true
    → w.source.is_local ≡ false
    → same_text (station_from_url c.stations w.source.input) [] ≡ true
    → stream_url c.stations w.store.station ≡ w.source.input
    → ReadsTrue c e w
unknown_stream c e w answers away unknown url =
    let (bed, fallback, station, tracks) = reads_stream c e w answers away in
    let kept : or_kept (station_from_url c.stations w.source.input) w.store.station
        ≡ w.store.station =
      rw (or_kept, unknown) refl in
    stream_true c (detect c e w).store w.source bed fallback
      (ap (stream_url c.stations) (station ∙ kept) ∙ url) away
