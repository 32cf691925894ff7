-- ===== src/Beds/Tests.antt =====
-- The store on concrete worlds: two public stations and a private one, and a library of two albums.
use tripbot.Base.{
  ℕ, ◌≤◌, ◌≡◌, refl, inl, inr, Bool, true, false, some, List, [], ◌∷◌, ◌++◌, All, OneOf, count,
  length, Text, codes, same_text, same_text_eq, arith, Bool-cases,
}
use tripbot.Clock.{since}
use tripbot.Beds.Paths.{under, music_dir, car_hum_file, valid_voicing, valid_voicing_cases}
use tripbot.Beds.Stations.{Station, AreNamed, selectable_station, stream_url}
use tripbot.Beds.Library.{Albums, fallback_tracks}
use tripbot.Beds.Store.{
  radio, carhum, album, valid, Switch, Source, World, Config, Env, network, local, overlay, playing,
  track_on_air, unknown_station, new_store, apply_pending,
}
use tripbot.Beds.Requests
use tripbot.Beds.Requests.{apply_now, switch_to}
use tripbot.Beds.Fallback.{advance, detect}
use tripbot.Beds.Events.{
  to_station, request, Event, asks, lands_now, timer_runs, track_ends, falls_back, comes_back,
  reads_back, step, run, started, switch_calls,
}
use tripbot.Beds.Sound.{says, heard, IsApart, IsSound, IsTruthful}
use tripbot.Beds.Latest.{request-lands_latest}
use tripbot.Beds.Readable.{shipped_file}
use tripbot.Beds.Reach.{run_truth}
use tripbot.Beds.Detect.{IsReadable}
use tripbot.Beds.Recover.{detect_recovers}
use tripbot.Beds.Repeats.{advance_changes_track}

abbrev station_of : Text → Bool → Station
station_of id hidden = record { id = id; name = id; url = codes "https://" ++ id; private = hidden }

abbrev stations : List Station
stations =
    station_of (codes "home") true
    ∷ station_of (codes "jazz") false
    ∷ station_of (codes "folk") false
    ∷ []

abbrev conf : Config
conf = record { music_dir = music_dir; stations = stations; switch_delay = 5; advance_debounce = 3 }

abbrev track_named : Text → Text
track_named t = music_dir ++ codes "/streambeats-lofi/" ++ t

abbrev library : Albums
library =
    (codes "carsounds", (music_dir ++ codes "/carsounds/engine.mp3") ∷ [])
    ∷ (codes "streambeats-lofi", track_named (codes "a.mp3") ∷ track_named (codes "b.mp3") ∷ [])
    ∷ []

abbrev env : ℕ → Bool → Env
env now ok = record {
  now = now;
  later = now;
  accepts = ok;
  answers = true;
  stops = false;
  library = library;
  shuffle = λ ts. ts;
  draw = λ n. 0;
}

-- OBS boots on a track of the album.
abbrev booted : Source
booted = record {
  is_local = true;
  local_file = track_named (codes "b.mp3");
  looping = false;
  input = codes "https://jazz";
}

abbrev begun : World
begun = run conf (reads_back (env 0 true) ∷ []) (started conf radio booted)

-- Only the allowed album is played, and a restart finds the place in it.
boots_on_album :
    (playing begun.store ≡ album) × (track_on_air begun.store album ≡ track_named (codes "b.mp3"))
unfolding run started step detect playing track_on_air under fallback_tracks
boots_on_album = (refl, refl)

-- The superseded timer runs first, late, and lands nothing; the second one lands.
abbrev clicks : List Event
clicks = asks (env 1 true) (to_station (codes "jazz")) ∷ []

abbrev afterwards : List Event
afterwards = timer_runs (env 7 true) 1 ∷ timer_runs (env 8 true) 0 ∷ lands_now (env 9 true) ∷ []

second_click_lands :
    let o =
      request conf
        (env 2 true)
        (to_station (codes "folk"))
        (run conf clicks (started conf radio booted)) in
    switch_calls conf afterwards o.0 ≡ network (codes "https://folk") ∷ []
unfolding run started step request switch_calls Requests.set_station Requests.fire apply_now
    selectable_station new_store apply_pending stream_url
second_click_lands = refl

private_is_refused :
    (request conf (env 2 true) (to_station (codes "home")) begun).1 ≡ some unknown_station
unfolding request Requests.set_station selectable_station
private_is_refused = refl

drones_shipped : (v : Text) → valid_voicing v ≡ true → under (car_hum_file v) music_dir ≡ false
unfolding under car_hum_file
drones_shipped v shipped =
    valid_voicing_cases (λ t. under (car_hum_file t) music_dir ≡ false) v shipped refl refl refl
      refl

drones_apart : (v : Text) → under (car_hum_file v) music_dir ≡ false
drones_apart v = let (u, shipped, file) = shipped_file v in rw file (drones_shipped u shipped)

conf-IsApart : IsApart conf
unfolding under
conf-IsApart = record { drones = drones_apart; copy = refl }

env-IsSound : (now : ℕ) (ok : Bool) → IsSound conf (env now ok)
unfolding fallback_tracks under
env-IsSound now ok = record {
  library = (refl, (refl, tt));
  permutes = record { same_count = λ t ts. refl; same_length = λ ts. refl };
  drawn = λ n h. h;
}

request-lands_latest_example :
    let w = run conf clicks (started conf radio booted) in
    let o = request conf (env 2 true) (to_station (codes "folk")) w in
    (o.2 ≡ [])
    × (length (switch_calls conf afterwards o.0) ≤ 1)
    × All
        (λ call. call ≡ network (stream_url stations (codes "folk")))
        (switch_calls conf afterwards o.0)
unfolding run started step request Requests.set_station selectable_station
request-lands_latest_example =
    request-lands_latest conf radio booted clicks afterwards (env 2 true)
      (to_station (codes "folk")) (omega arith) (omega arith) (refl, (refl, (refl, tt))) refl

-- An hour with an outage: a request, a swap onto the fallback that OBS refuses and one that it
-- accepts, a late timer, an advance and the way back.
abbrev hour : List Event
hour =
    asks (env 1 true) (to_station (codes "folk"))
    ∷ falls_back (env 2 false)
    ∷ falls_back (env 3 true)
    ∷ track_ends (env 90 true)
    ∷ timer_runs (env 91 true) 0
    ∷ comes_back (env 92 false)
    ∷ []

stations-AreNamed : AreNamed stations
stations-AreNamed = (refl, (refl, (refl, tt)), (refl, (refl, tt), (refl, tt, tt)))

booted-IsReadable : IsReadable conf booted
unfolding under
booted-IsReadable = inr (inl (refl, refl, refl))

run_truth_example :
    let w = run conf (reads_back (env 0 true) ∷ hour) (started conf radio booted) in
    says conf w.store ≡ heard conf w.source
run_truth_example =
    run_truth conf radio booted (env 0 true) hour conf-IsApart stations-AreNamed booted-IsReadable
      (env-IsSound 0 true) refl
      (tt, (env-IsSound 2 false, (env-IsSound 3 true, (env-IsSound 90 true, (tt, (tt, tt))))))

abbrev truthful : World
truthful = record {
  store = record (new_store conf carhum) {
    bed = radio;
    station = codes "jazz";
    fallback = some album;
  };
  source = booted;
  timers = [];
}

truthful-IsTruthful : IsTruthful conf truthful
unfolding new_store under valid
truthful-IsTruthful = record {
  chosen = refl;
  stands_in = refl;
  agrees = refl;
  tracks = tt;
  waiting = tt;
  timers = tt;
}

detect_recovers_example :
    let s = (detect conf (env 0 true) (started conf carhum booted)).store in
    (s.bed ≡ radio)
    × (s.fallback ≡ some album)
    × (says conf s ≡ says conf truthful.store)
    × (truthful.source.is_local ≡ true
        → under truthful.source.local_file conf.music_dir ≡ true
        → OneOf truthful.source.local_file (fallback_tracks library)
        → track_on_air s album ≡ truthful.source.local_file)
detect_recovers_example =
    detect_recovers conf carhum (env 0 true) truthful conf-IsApart stations-AreNamed
      (env-IsSound 0 true) refl booted-IsReadable truthful-IsTruthful

abbrev tuned_to_folk : Switch
tuned_to_folk = switch_to radio (codes "folk") (codes "idle")

abbrev held : World
held = record truthful { store = record truthful.store { pending = some tuned_to_folk } }

abbrev album_on : World
album_on = record truthful {
  store = record truthful.store { tracks = fallback_tracks library; idx = 1; last_start = some 0 };
}

no_repeats : (t : Text) → count (same_text t) (fallback_tracks library) ≤ 1
unfolding fallback_tracks
no_repeats t = elim (Bool-cases (same_text t (track_named (codes "a.mp3")))) [
  | inl first ↦ rw (same_text_eq t (track_named (codes "a.mp3")) first) (omega arith)
  | inr other ↦ ground (arith, other)
]

-- The order wraps, under a shuffle that changes nothing.
advance_changes_track_example :
    let o = advance conf (env 90 true) album_on in
    (o.2 ≡ local (track_on_air o.0.store album) false ∷ [])
    × (same_text (track_on_air o.0.store album) (track_on_air album_on.store album) ≡ false)
    × (o.0.source ≡ overlay (local (track_on_air o.0.store album) false) booted)
unfolding playing since fallback_tracks
advance_changes_track_example =
    advance_changes_track conf (env 90 true) album_on refl refl (env-IsSound 90 true).permutes
      (env-IsSound 90 true).drawn no_repeats (omega arith) (omega arith)
