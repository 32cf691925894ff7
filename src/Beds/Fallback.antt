-- ===== src/Beds/Fallback.antt =====
-- beds.go: the fallback that the watchdog puts on air, the walk through its album, and reading the
-- bed back off OBS.
use tripbot.Base.{
  ◌+◌, ◌%◌, Bool, true, false, not, ◌&&◌, ◌||◌, Option, none, some, [], length, Text, same_text,
  ltb, ◌==◌, if◌then◌else◌,
}
use tripbot.Clock.{since}
use tripbot.Beds.Paths.{under, fallback_file, voicing_from_file}
use tripbot.Beds.Stations.{station_from_url}
use tripbot.Beds.Library.{fallback_tracks, track_at, index_of, reshuffle_avoiding}
use tripbot.Beds.Store.{
  Bed, radio, carhum, album, Store, Source, World, Config, Env, local, Outcome, send, playing,
  track, apply,
}

-- `loadFallbackLocked`: `none` is the error, which leaves the store as it was.
unfoldable pub load_fallback : Env → Text → Store → Option Store
load_fallback e on_air s =
    let tracks = fallback_tracks e.library in
    let order = e.shuffle tracks in
    if length tracks == 0
    then none
    else some (record s { tracks = order; idx = index_of on_air order })

abbrev pub put_fallback : Bed → Env → World → World
put_fallback bed e w = record w {
  store = record w.store { fallback = some bed; last_start = some e.later };
}

abbrev pub with_fallback : Bed → Env → Outcome → Outcome
with_fallback bed e (w, none, calls) = (put_fallback bed e w, none, calls)
with_fallback bed e (w, some f, calls) = (w, some f, calls)

unfoldable pub rescue_empty_album : Env → World → Outcome
unfolding send
rescue_empty_album e w = with_fallback carhum e (send (local fallback_file true) e w)

abbrev pub is_album : Bed → Bool
is_album radio = false
is_album carhum = false
is_album album = true

-- The store after its next track is chosen.
unfoldable pub next_track : Env → Store → Store
unfolding reshuffle_avoiding
next_track e s =
    let current = track_at s.tracks s.idx in
    let i = (s.idx + 1) % length s.tracks in
    let tracks =
      if i == 0 then reshuffle_avoiding e.shuffle e.draw s.tracks current else s.tracks in
    record s { last_start = some e.now; idx = i; tracks = tracks }

unfoldable pub advance : Config → Env → World → Outcome
unfolding next_track rescue_empty_album playing since send
advance c e w =
    let s = next_track e w.store in
    if not (is_album (playing w.store)) || ltb (since w.store.last_start e.now) c.advance_debounce
    then (w, none, [])
    else (if length w.store.tracks == 0
        then rescue_empty_album e w
        else send (local (track_at s.tracks s.idx) false) e (record w { store = s }))

abbrev pub loaded : Store → Option Store → Store
loaded s none = s
loaded s (some s') = s'

abbrev pub first_track : Option Store → Text
first_track none = []
first_track (some s) = track s album

-- `SwapToFallback` after the play order is loaded.
abbrev pub fall_back_to : Env → Option Store → World → Outcome
fall_back_to e order w =
    let file = first_track order in
    let w' = record w { store = loaded w.store order } in
    if same_text file []
    then with_fallback carhum e (send (local fallback_file true) e w')
    else with_fallback album e (send (local file false) e w')

unfoldable pub swap_to_fallback : Env → World → Outcome
unfolding load_fallback send
swap_to_fallback e w = fall_back_to e (load_fallback e [] w.store) w

abbrev end_fallback : Outcome → Outcome
end_fallback (w, none, calls) =
    (record w { store = record w.store { fallback = none } }, none, calls)
end_fallback (w, some f, calls) = (w, some f, calls)

unfoldable pub swap_to_radio : Config → Env → World → Outcome
unfolding apply
swap_to_radio c e w = end_fallback (apply c e radio [] w.store.station w)

unfoldable pub bed_from_settings : Source → Text → Bed
bed_from_settings src music_dir =
    if src.is_local
    then (if under src.local_file music_dir || same_text src.local_file fallback_file
        then radio
        else carhum)
    else radio

abbrev pub or_kept : Text → Text → Text
or_kept found kept = if same_text found [] then kept else found

-- What `Detect` makes of the fallback, on the store that has the bed, the station and the voicing.
abbrev detect_fallback : Config → Env → Source → Store → Store
detect_fallback c e src s =
    if src.is_local && under src.local_file c.music_dir
    then loaded (record s { fallback = some album })
        (load_fallback e src.local_file (record s { fallback = some album }))
    else (if src.is_local && same_text src.local_file fallback_file
        then record s { fallback = some carhum }
        else record s { fallback = none })

unfoldable pub detect : Config → Env → World → World
unfolding bed_from_settings load_fallback
detect c e w =
    let src = w.source in
    let s = record w.store {
      bed = bed_from_settings src c.music_dir;
      station = or_kept (station_from_url c.stations src.input) w.store.station;
      voicing = or_kept (voicing_from_file src.local_file) w.store.voicing;
    } in
    if e.answers then record w { store = detect_fallback c e src s } else w
