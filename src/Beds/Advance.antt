-- ===== src/Beds/Advance.antt =====
-- Store: advancing the album keeps the store truthful.
use tripbot.Base.{
  ◌+◌, ◌%◌, ◌<◌, ◌≡◌, refl, inl, inr, true, false, not, Option, none, some, length, Text, ◌==◌,
  arith, Bool-cases, ap, ◌∙◌, sym, ltb, ◌||◌,
}
use tripbot.Clock.{since}
use tripbot.Beds.Paths.{under}
use tripbot.Beds.Library.{track_at, reshuffle_avoiding}
use tripbot.Beds.Store.{
  Bed, radio, carhum, album, valid, Store, World, Config, Env, local, send, overlay, playing,
  playing_of,
}
use tripbot.Beds.Fallback.{next_track, advance, is_album}
use tripbot.Beds.Sound.{says_fallback, StandsIn, InShare, IsTruthful, SameChoice, IsApart, IsSound}
use tripbot.Beds.Order.{All-track_at, All-reshuffle_avoiding, length-reshuffle_avoiding}
use tripbot.Beds.Swaps.{fallback_put, rescue_empty_album-IsTruthful}

next_track-InShare :
    (c : Config) (e : Env) (s : Store)
    → IsSound c e
    → InShare c s.tracks
    → (length s.tracks == 0) ≡ false
    → InShare c (next_track e s).tracks
      × (under (track_at (next_track e s).tracks (next_track e s).idx) c.music_dir ≡ true)
unfolding next_track
next_track-InShare c e s sound shared some_left =
    let P = λ (t : Text). under t c.music_dir ≡ true in
    let current = track_at s.tracks s.idx in
    let i = (s.idx + 1) % length s.tracks in
    let anew = reshuffle_avoiding e.shuffle e.draw s.tracks current in
    let full : 0 < length s.tracks = ground arith in
    let in_range : i < length s.tracks = grind arith in
    let fresh =
      All-reshuffle_avoiding P e.shuffle e.draw s.tracks current sound.permutes sound.drawn
        shared in
    elim (Bool-cases (i == 0)) [
      | inl wraps ↦
          rw (next_track, wraps)
            (
              fresh,
              All-track_at P anew i
                  (omega (
                    arith,
                    length-reshuffle_avoiding e.shuffle e.draw s.tracks current sound.permutes,
                  ))
                  fresh,
            )
      | inr goes_on ↦ rw (next_track, goes_on) (shared, All-track_at P s.tracks i in_range shared)
    ]

album_stands :
    (fallback : Option Bed) (bed : Bed)
    → valid bed ≡ true
    → StandsIn fallback bed
    → is_album (playing_of fallback bed) ≡ true
    → (fallback ≡ some album) × (bed ≡ radio)
unfolding valid
album_stands none radio v h e = ground arith
album_stands none carhum v h e = ground arith
album_stands none album v h e = ground arith
album_stands (some radio) bed v h e = elim h [ ]
album_stands (some carhum) bed v h e = ground arith
album_stands (some album) bed v h e = (refl, h)

next_track-frame :
    (e : Env) (s : Store)
    → ((next_track e s).bed ≡ s.bed)
      × ((next_track e s).fallback ≡ s.fallback)
      × ((next_track e s).station ≡ s.station)
      × ((next_track e s).voicing ≡ s.voicing)
      × ((next_track e s).pending ≡ s.pending)
      × ((next_track e s).gen ≡ s.gen)
      × ((next_track e s).timer ≡ s.timer)
unfolding next_track
next_track-frame e s = ground arith

-- A file of the share is sent while the album stands in.
play_file :
    (c : Config) (e : Env) (w : World) (s : Store) (file : Text)
    → IsTruthful c w
    → w.store.fallback ≡ some album
    → w.store.bed ≡ radio
    → SameChoice w.store s
    → InShare c s.tracks
    → under file c.music_dir ≡ true
    → IsTruthful c (send (local file false) e (record w { store = s })).0
unfolding send overlay
play_file c e w s file v on_album on_radio (bed, fallback, station, voicing, pending, gen, timer)
      shared there =
    let w' = record w { store = s } in
    let standing : w'.store.fallback ≡ some album = fallback ∙ on_album in
    let played : World = record w' { source = overlay (local file false) w.source } in
    elim (Bool-cases e.accepts) [
      | inl ok ↦
          rw (send, ok)
            (fallback_put c album w played v (refl, gen, timer, pending) bed standing on_radio
              (rw (standing, there) refl) shared)
      | inr no' ↦
          rw (send, no')
            (fallback_put c album w w' v (refl, gen, timer, pending) bed standing on_radio
              (ap (says_fallback c s) standing
                ∙ sym (ap (says_fallback c w.store) on_album)
                ∙ v.agrees)
              shared)
    ]

pub advance-IsTruthful :
    (c : Config) (e : Env) (w : World)
    → IsApart c
    → IsSound c e
    → IsTruthful c w
    → IsTruthful c (advance c e w).0
unfolding advance
advance-IsTruthful c e w apart sound v =
    let skips =
      not (is_album (playing w.store)) || ltb (since w.store.last_start e.now) c.advance_debounce in
    elim (Bool-cases skips) [
      | inl skip ↦ rw (advance, skip) v
      | inr goes ↦
          let on_album =
            album_stands w.store.fallback w.store.bed v.chosen v.stands_in (ground arith) in
          elim (Bool-cases (length w.store.tracks == 0)) [
            | inl empty ↦
                rw (advance, goes, empty) (rescue_empty_album-IsTruthful c e w apart on_album.1 v)
            | inr left ↦
                let next = next_track-InShare c e w.store sound v.tracks left in
                rw (advance, goes, left)
                  (play_file c e w (next_track e w.store) _ v on_album.0 on_album.1
                    (next_track-frame e w.store) next.0 next.1)
          ]
    ]
