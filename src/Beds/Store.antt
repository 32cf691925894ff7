-- ===== src/Beds/Store.antt =====
-- beds.go: the Store and its methods, on the source of OBS that they write. A method's lock sections
-- and its OBS call are one step, which stands for runs in which OBS has answered before the next
-- method or timer gets the lock; calls that overlap are not modelled; what the environment answers in it is the record Env. A method
-- returns the new world, the error it returns, and the calls it made to OBS.
use tripbot.Base.{
  ℕ, Bool, true, false, Option, none, some, List, [], ◌∷◌, Text, same_text, ◌==◌, if◌then◌else◌,
}
use tripbot.Clock.{Time}
use tripbot.Beds.Paths.{default_voicing, car_hum_file}
use tripbot.Beds.Stations.{Station, default_station, stream_url}
use tripbot.Beds.Library.{Albums, track_at}

pub data Bed : Type 0 where
  radio carhum album : Bed

unfoldable pub valid : Bed → Bool
valid radio = true
valid carhum = true
valid album = false

-- `Switch`, with its deadline.
pub record Switch : Type 0 where
  pub bed : Bed
  pub station : Text
  pub voicing : Text
  pub at : Time

-- `timer` is the handle of the last timer, named by the gen that its callback captured.
pub record Store : Type 0 where
  pub bed : Bed
  pub station : Text
  pub voicing : Text
  pub tracks : List Text
  pub idx : ℕ
  pub last_start : Time
  pub fallback : Option Bed
  pub pending : Option Switch
  pub timer : Option ℕ
  pub gen : ℕ

-- The settings of the OBS source that the store writes and reads.
pub record Source : Type 0 where
  pub is_local : Bool
  pub local_file : Text
  pub looping : Bool
  pub input : Text

-- A callback of `time.AfterFunc` that has not run yet: the gen and the switch that it captured.
abbrev pub Timer : Type 0
Timer = ℕ × Switch

pub record World : Type 0 where
  pub store : Store
  pub source : Source
  pub timers : List Timer

-- The share's root, the stations, the delay and the debounce in nanoseconds.
pub record Config : Type 0 where
  pub music_dir : Text
  pub stations : List Station
  pub switch_delay : ℕ
  pub advance_debounce : ℕ

-- The clock when a step starts and after its OBS call, whether OBS accepts the call, whether it
-- answers a read, whether a timer's `Stop` comes in time, the album library, and the chances.
pub record Env : Type 0 where
  pub now : ℕ
  pub later : ℕ
  pub accepts : Bool
  pub answers : Bool
  pub stops : Bool
  pub library : Albums
  pub shuffle : List Text → List Text
  pub draw : ℕ → ℕ

pub data Failure : Type 0 where
  unknown_bed unknown_station unknown_voicing no_station refused : Failure

-- The OBS calls: `SetNetwork`, and `SetLocalFile` with its loop flag.
pub data Call : Type 0 where
  network : Text → Call
  local : Text → Bool → Call

abbrev pub Outcome : Type 0
Outcome = World × Option Failure × List Call

-- `SetInputNetworkMode` and `SetInputLocalFileMode` are overlays: what they do not name stays.
unfoldable pub overlay : Call → Source → Source
overlay (network url) src = record src { is_local = false; looping = false; input = url }
overlay (local file loop) src = record src { is_local = true; local_file = file; looping = loop }

unfoldable pub send : Call → Env → World → World × Option Failure × List Call
unfolding overlay
send call e w =
    if e.accepts
    then (record w { source = overlay call w.source }, none, call ∷ [])
    else (w, some refused, call ∷ [])

-- `NewStore`.
unfoldable pub new_store : Config → Bed → Store
unfolding valid
new_store c bed = record {
  bed = if valid bed then bed else carhum;
  station = default_station c.stations;
  voicing = default_voicing;
  tracks = [];
  idx = 0;
  last_start = none;
  fallback = none;
  pending = none;
  timer = none;
  gen = 0;
}

abbrev pub playing_of : Option Bed → Bed → Bed
playing_of (some b) bed = b
playing_of none bed = bed

-- `playingLocked` and `trackOnAirLocked`, the two answers of `Playing`.
unfoldable pub playing : Store → Bed
playing s = playing_of s.fallback s.bed

abbrev track_if_album : Bed → Text → Text
track_if_album radio track = []
track_if_album carhum track = []
track_if_album album track = track

unfoldable pub track_on_air : Store → Bed → Text
track_on_air s bed = track_if_album bed (track_at s.tracks s.idx)

-- `trackLocked`.
abbrev pub track : Store → Bed → Text
track s radio = []
track s carhum = car_hum_file s.voicing
track s album = track_at s.tracks s.idx

unfoldable pub apply : Config → Env → Bed → Text → Text → World → Outcome
unfolding send
apply c e radio file station w =
    let url = stream_url c.stations station in
    if same_text url [] then (w, some no_station, []) else send (network url) e w
apply c e carhum file station w = send (local file true) e w
apply c e album file station w = send (local file false) e w

abbrev set_bed : Bed → Env → World → World
set_bed bed e w = record w {
  store = record w.store { bed = bed; last_start = some e.later; fallback = none };
}

unfoldable pub set_now : Config → Env → Bed → World → Outcome
unfolding apply
set_now c e bed w =
    let (w', err, calls) = apply c e bed (track w.store bed) w.store.station w in
    elim err [ none ↦ (set_bed bed e w', none, calls) | some f ↦ (w', some f, calls) ]

-- `clearPendingLocked`.
unfoldable pub clear_pending : ℕ → Store → Store
clear_pending gen s = if s.gen == gen then record s { pending = none } else s

-- The three parts of `applyPending`: the choice is recorded, the bed is switched, and the choice is
-- taken back if that failed.
unfoldable pub begin_pending : Switch → World → World
begin_pending sw w = record w {
  store = record w.store { station = sw.station; voicing = sw.voicing };
}

unfoldable pub end_pending : ℕ → Text → Text → Option Failure → World → World
unfolding clear_pending
end_pending gen station voicing none w = record w { store = clear_pending gen w.store }
end_pending gen station voicing (some f) w = record w {
  store = clear_pending gen (record w.store { station = station; voicing = voicing });
}

unfoldable pub apply_pending : Config → Env → Switch → ℕ → World → Outcome
unfolding begin_pending set_now end_pending
apply_pending c e sw gen w =
    let (w', err, calls) = set_now c e sw.bed (begin_pending sw w) in
    (end_pending gen w.store.station w.store.voicing err w', err, calls)
