-- ===== src/Beds/Swaps.antt =====
-- Store: the fallback's methods keep the store truthful.
use tripbot.Base.{
  ◌≡◌, refl, inl, inr, Bool, true, false, Option, none, some, [], length, Text, same_text, ◌==◌,
  arith, Bool-cases, ◌∙◌, subst,
}
use tripbot.Beds.Paths.{under, fallback_file}
use tripbot.Beds.Library.{fallback_tracks, track_at, index_of}
use tripbot.Beds.Store.{Bed, radio, carhum, album, Store, World, Config, Env, local, send, overlay}
use tripbot.Beds.Fallback.{
  load_fallback, rescue_empty_album, swap_to_fallback, swap_to_radio, with_fallback, fall_back_to,
}
use tripbot.Beds.Sound.{
  heard, says, says_fallback, StandsIn, InShare, IsTruthful, SameChoice, IsApart, IsSound,
}
use tripbot.Beds.Order.{All-shuffle, All-track_named}
use tripbot.Beds.Queue

-- A fallback that went on air, or a world where nothing changed on air.
pub fallback_put :
    (c : Config) (b : Bed) (w w' : World)
    → IsTruthful c w
    → Queue.SameQueue w w'
    → w'.store.bed ≡ w.store.bed
    → w'.store.fallback ≡ some b
    → StandsIn (some b) w.store.bed
    → says c w'.store ≡ heard c w'.source
    → InShare c w'.store.tracks
    → IsTruthful c w'
fallback_put c b w w' v (ts, gen, timer, pending) bed fallback stands agrees shared = record {
  chosen = rw bed v.chosen;
  stands_in = rw (fallback, bed) stands;
  agrees = agrees;
  tracks = shared;
  waiting = rw pending v.waiting;
  timers = rw ts v.timers;
}

pub rescue_empty_album-IsTruthful :
    (c : Config) (e : Env) (w : World)
    → IsApart c
    → w.store.bed ≡ radio
    → IsTruthful c w
    → IsTruthful c (rescue_empty_album e w).0
unfolding rescue_empty_album
rescue_empty_album-IsTruthful c e w apart on_radio v = elim (Bool-cases e.accepts) [
  | inl ok ↦
      fallback_put c carhum w (rescue_empty_album e w).0 v (ground arith) (ground arith)
        (ground arith) on_radio (ground (arith, apart.copy)) (ground (arith, v.tracks))
  | inr no' ↦ ground arith
]

pub load_fallback-InShare :
    (c : Config) (e : Env) (on_air : Text) (s s' : Store)
    → IsSound c e
    → load_fallback e on_air s ≡ some s'
    → SameChoice s s' × InShare c s'.tracks
unfolding load_fallback
load_fallback-InShare c e on_air s s' sound h =
    let P = λ (t : Text). under t c.music_dir ≡ true in
    let tracks = fallback_tracks e.library in
    let order = e.shuffle tracks in
    let shared = All-shuffle P e.shuffle tracks sound.permutes sound.library in
    elim (Bool-cases (length tracks == 0)) [
      | inl empty ↦ ground (arith, empty)
      | inr full ↦
          let is : record s { tracks = order; idx = index_of on_air order } ≡ s' =
            ground (arith, full) in
          subst (λ u. SameChoice s u × InShare c u.tracks) is
            ((refl, refl, refl, refl, refl, refl, refl), shared)
    ]

-- A new play order changes nothing on air.
pub reordered :
    (c : Config) (w : World) (s : Store)
    → IsTruthful c w
    → SameChoice w.store s
    → InShare c s.tracks
    → IsTruthful c (record w { store = s })
reordered c w s v (bed, fallback, station, voicing, pending, gen, timer) shared = record {
  chosen = rw bed v.chosen;
  stands_in = rw (bed, fallback) v.stands_in;
  agrees = rw (bed, fallback, station, voicing) v.agrees;
  tracks = shared;
  waiting = rw pending v.waiting;
  timers = v.timers;
}

says_fallback_same :
    (c : Config) (s s' : Store) (b : Bed)
    → s'.station ≡ s.station
    → says_fallback c s' (some b) ≡ says_fallback c s (some b)
says_fallback_same c s s' radio station = rw station refl
says_fallback_same c s s' carhum station = refl
says_fallback_same c s s' album station = refl

fallback_sent :
    (c : Config) (e : Env) (b : Bed) (file : Text) (loops : Bool) (w : World)
    → IsTruthful c w
    → StandsIn (some b) w.store.bed
    → says_fallback c w.store (some b) ≡ heard c (overlay (local file loops) w.source)
    → IsTruthful c (with_fallback b e (send (local file loops) e w)).0
unfolding send
fallback_sent c e b file loops w v stands agrees = elim (Bool-cases e.accepts) [
  | inl ok ↦
      let put : World = record w {
        store = record w.store { fallback = some b; last_start = some e.later };
        source = overlay (local file loops) w.source;
      } in
      rw (send, ok)
        (fallback_put c b w put v (refl, refl, refl, refl) refl refl stands
          (says_fallback_same c w.store put.store b refl ∙ agrees) v.tracks)
  | inr no' ↦ rw (send, no') v
]

fall_back_to-IsTruthful :
    (c : Config) (e : Env) (order : Option Store) (w : World)
    → IsApart c
    → ((s : Store) → order ≡ some s → SameChoice w.store s × InShare c s.tracks)
    → w.store.bed ≡ radio
    → IsTruthful c w
    → IsTruthful c (fall_back_to e order w).0
unfolding overlay
fall_back_to-IsTruthful c e none w apart sure on_radio v =
    fallback_sent c e carhum fallback_file true w v on_radio (rw apart.copy refl)
fall_back_to-IsTruthful c e (some s) w apart sure on_radio v =
    let (same, shared) = sure s refl in
    let w' = record w { store = s } in
    let v' = reordered c w s v same shared in
    let file = track_at s.tracks s.idx in
    elim (Bool-cases (same_text file [])) [
      | inl empty ↦ rw empty (
          fallback_sent c e carhum fallback_file true w' v' (same.0 ∙ on_radio)
            (rw apart.copy refl))
      | inr named ↦
          let there =
            All-track_named (λ t. under t c.music_dir ≡ true) s.tracks s.idx named shared in
          rw named (fallback_sent c e album file false w' v' (same.0 ∙ on_radio) (rw there refl))
    ]

pub swap_to_fallback-IsTruthful :
    (c : Config) (e : Env) (w : World)
    → IsApart c
    → IsSound c e
    → w.store.bed ≡ radio
    → IsTruthful c w
    → IsTruthful c (swap_to_fallback e w).0
unfolding swap_to_fallback
swap_to_fallback-IsTruthful c e w apart sound on_radio v =
    fall_back_to-IsTruthful c e (load_fallback e [] w.store) w apart
      (λ s found. load_fallback-InShare c e [] w.store s sound found) on_radio v

pub swap_to_radio-IsTruthful :
    (c : Config) (e : Env) (w : World)
    → w.store.bed ≡ radio
    → IsTruthful c w
    → IsTruthful c (swap_to_radio c e w).0
unfolding swap_to_radio
swap_to_radio-IsTruthful c e w on_radio v = ground (arith, on_radio)
