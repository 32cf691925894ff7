-- ===== src/Beds/Landing.antt =====
-- Store: the switch that the operator lands by hand, with OBS's answer.
use tripbot.Base.{
  ◌≡◌, refl, ◌⊎◌, inl, inr, Bool, true, false, Option, none, some, [], Text, same_text, arith,
  Bool-cases, sym, subst,
}
use tripbot.Beds.Stations.{
  stream_url, selectable_station, default_station, AreNamed, selectable_station-default_station,
}
use tripbot.Beds.Store.{
  radio, carhum, album, Switch, World, Config, Env, network, refused, Outcome, overlay,
  apply_pending,
}
use tripbot.Beds.Requests.{next_gen, stop, apply_now, land, set, set_station, set_voicing}
use tripbot.Beds.Events.{Request, to_bed, to_station, to_voicing, request}
use tripbot.Beds.Waiting.{call_of}
use tripbot.Beds.Latest.{asked}
use tripbot.Beds.Truth.{SameSound}

-- The switch can be made: the radio needs a station of the list.
abbrev pub CanLand : Config → Switch → Type 0
CanLand c sw =
    (sw.bed ≡ carhum)
    ⊎ ((sw.bed ≡ radio) × (same_text (stream_url c.stations sw.station) [] ≡ false))

abbrev pub Landed : Config → Switch → World → World → Type 0
Landed c sw w w' =
    (w'.source ≡ overlay (call_of c sw) w.source)
    × (w'.store.bed ≡ sw.bed)
    × (w'.store.station ≡ sw.station)
    × (w'.store.voicing ≡ sw.voicing)
    × (w'.store.fallback ≡ none)
    × (w'.store.pending ≡ none)

apply_pending_lands :
    (c : Config) (e : Env) (sw : Switch) (w : World)
    → CanLand c sw
    → e.accepts ≡ true
    → ((apply_pending c e sw w.store.gen w).1 ≡ none)
      × Landed c sw w (apply_pending c e sw w.store.gen w).0
unfolding apply_pending
apply_pending_lands c e sw w can ok = ground (arith, can)

apply_pending_refused :
    (c : Config) (e : Env) (sw : Switch) (w : World)
    → CanLand c sw
    → e.accepts ≡ false
    → let o = apply_pending c e sw w.store.gen w in
      (o.1 ≡ some refused) × SameSound w o.0 × (o.0.store.pending ≡ none)
unfolding apply_pending
apply_pending_refused c e sw w can no' = ground (arith, can)

-- What OBS's answer makes of a switch that waits.
abbrev pub Answered : Config → Switch → World → Bool → Outcome → Type 0
Answered c sw w true o = (o.1 ≡ none) × Landed c sw w o.0
Answered c sw w false o = (o.1 ≡ some refused) × SameSound w o.0 × (o.0.store.pending ≡ none)

apply_pending-Answered :
    (c : Config) (e : Env) (sw : Switch) (w : World) (b : Bool)
    → CanLand c sw
    → e.accepts ≡ b
    → Answered c sw w b (apply_pending c e sw w.store.gen w)
apply_pending-Answered c e sw w true can is = apply_pending_lands c e sw w can is
apply_pending-Answered c e sw w false can is = apply_pending_refused c e sw w can is

land_outcome :
    (c : Config) (e : Env) (sw : Switch) (w : World) (p : Option Switch)
    → CanLand c sw
    → p ≡ some sw
    → Answered c sw w e.accepts (land c e w p)
land_outcome c e sw w none can is = absurd (ground (arith, is))
land_outcome c e sw w (some sw') can is =
    let w' : World = record w {
      store = record w.store { gen = next_gen w.store.gen };
      timers = stop w.store.timer e w.timers;
    } in
    let same : sw' ≡ sw = cc in
    subst (λ u. Answered c sw w e.accepts (land c e w (some u))) (sym same)
      (apply_pending-Answered c e sw w' e.accepts can refl)

-- Landing a waiting switch by hand, the drone or a station with a URL: if OBS accepts, the source
-- becomes what the switch asks for, and the store has its bed, station and voicing and no fallback;
-- if OBS refuses, that error is returned and the source, the bed, the station, the voicing, the
-- fallback and the album are as before. In both cases nothing is waiting any more.
pub apply_now_outcome :
    (c : Config) (e : Env) (sw : Switch) (w : World)
    → CanLand c sw
    → w.store.pending ≡ some sw
    → Answered c sw w e.accepts (apply_now c e w)
unfolding apply_now
apply_now_outcome c e sw w can waiting = land_outcome c e sw w w.store.pending can waiting

-- No accepted request for the radio tunes a private station: what it asks for is the URL of a public
-- station of the list. Every station of the list has an id of its own.
pub asked_public :
    (c : Config) (e : Env) (r : Request) (w : World) (url : Text)
    → AreNamed c.stations
    → (request c e r w).1 ≡ none
    → asked c w r ≡ network url
    → (id : Text) × (selectable_station c.stations id ≡ true) × (url ≡ stream_url c.stations id)
unfolding request set set_station set_voicing
asked_public c e (to_bed radio) w url named ok is =
    elim (Bool-cases (selectable_station c.stations w.store.station)) [
      | inl shown ↦ (w.store.station, shown, ground (arith, is))
      | inr hidden ↦
          let named' : same_text (default_station c.stations) [] ≡ false =
            ground (arith, ok, hidden) in
          (
            default_station c.stations,
            selectable_station-default_station c.stations named named',
            ground (arith, is, hidden),
          )
    ]
asked_public c e (to_bed carhum) w url named ok is = ground (arith, is)
asked_public c e (to_bed album) w url named ok is = ground (arith, is)
asked_public c e (to_voicing voicing) w url named ok is = ground (arith, is)
asked_public c e (to_station station) w url named ok is =
    elim (Bool-cases (selectable_station c.stations station)) [
      | inl shown ↦ (station, shown, ground (arith, is))
      | inr hidden ↦ absurd (ground (arith, ok, hidden))
    ]
