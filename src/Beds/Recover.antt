-- ===== src/Beds/Recover.antt =====
-- Store: what a bot that restarts knows about the one before it.
use tripbot.Beds.Library.{fallback_tracks, track_at, index_from, index_of}
use tripbot.Base.{
  ℕ, suc, ◌+◌, ◌<◌, ◌==◌, false, inl, inr, List, [], ◌∷◌, OneOf, count, length, same_text_eq,
  same_text_self, Bool-cases, ◌≡◌, refl, true, Option, none, some, Text, same_text, if◌then◌else◌,
  arith, ap, ◌∙◌, sym,
}
use tripbot.Beds.Paths.{under, fallback_file}
use tripbot.Beds.Stations.{AreNamed}
use tripbot.Beds.Store.{Bed, radio, carhum, album, valid, track_on_air, Store, World, Config, Env}
use tripbot.Beds.Fallback.{detect, load_fallback}
use tripbot.Beds.Sound.{
  Sound, stream, share, drone, heard, says, says_bed, says_fallback, StandsIn, IsTruthful, IsApart,
  IsSound,
}
use tripbot.Beds.Store.{new_store}
use tripbot.Beds.Events.{started}
use tripbot.Beds.Detect.{car_hum_file-ne-copy, detect-source, IsReadable, detect-IsTruthful}
use tripbot.Beds.Readable.{shipped_file}

-- The bed and the fallback that a sound tells.
kind : Sound → Bed × Option Bed
kind (stream url) = (radio, none)
kind (share loops) = (radio, some album)
kind (drone file loops) =
    if same_text file fallback_file then (radio, some carhum) else (carhum, none)

kind-says :
    (c : Config) (s : Store) (bed : Bed) (fallback : Option Bed)
    → s.bed ≡ bed
    → s.fallback ≡ fallback
    → valid bed ≡ true
    → StandsIn fallback bed
    → kind (says c s) ≡ (bed, fallback)
unfolding kind valid
kind-says c s radio none b f v h =
    ap (λ (x : Option Bed). kind (says_fallback c s x)) f
    ∙ ap (λ (x : Bed). kind (says_bed c s x)) b
kind-says c s carhum none b f v h =
    let (u, shipped, file) = shipped_file s.voicing in
    ap (λ (x : Option Bed). kind (says_fallback c s x)) f
    ∙ ap (λ (x : Bed). kind (says_bed c s x)) b
    ∙ ap (λ (x : Text). kind (drone x true)) file
    ∙ rw (kind, car_hum_file-ne-copy u shipped) refl
kind-says c s album none b f v h = ground arith
kind-says c s bed (some radio) b f v h = elim h [ ]
kind-says c s bed (some carhum) b f v h =
    ap (λ (x : Option Bed). kind (says_fallback c s x)) f
    ∙ ap (λ (x : Bed). (x, some carhum)) (sym h)
kind-says c s bed (some album) b f v h =
    ap (λ (x : Option Bed). kind (says_fallback c s x)) f
    ∙ ap (λ (x : Bed). (x, some album)) (sym h)

-- The place that is found holds the file.
index_from-track_at :
    (i : ℕ) (t : Text) (ts : List Text)
    → OneOf t ts
    → (j : ℕ) × (index_from i t ts ≡ i + j) × (track_at ts j ≡ t)
index_from-track_at i t [] h = elim h [ ]
index_from-track_at i t (u ∷ ts) h = elim (Bool-cases (same_text u t)) [
  | inl same ↦ (0, ground (arith, same), same_text_eq u t same)
  | inr other ↦ elim h [
    | inl e ↦
        let same : same_text u t ≡ true = rw e (same_text_self t) in
        absurd (ground (arith, same, other))
    | inr later ↦
        let (j, at, is) = index_from-track_at (suc i) t ts later in
        (suc j, ground (arith, other, at), is)
  ]
]

index_of-track_at : (t : Text) (ts : List Text) → OneOf t ts → track_at ts (index_of t ts) ≡ t
index_of-track_at t ts h =
    let (j, at, is) = index_from-track_at 0 t ts h in ap (track_at ts) (at ∙ omega arith) ∙ is

OneOf-count : (t : Text) (ts : List Text) → OneOf t ts → 0 < count (same_text t) ts
OneOf-count t [] h = elim h [ ]
OneOf-count t (u ∷ ts) (inl e) =
    let same : same_text t u ≡ true = rw e (same_text_self t) in ground (arith, same)
OneOf-count t (u ∷ ts) (inr h) = omega (arith, OneOf-count t ts h)

count-OneOf : (t : Text) (ts : List Text) → 0 < count (same_text t) ts → OneOf t ts
count-OneOf t [] h = absurd (omega (arith, h))
count-OneOf t (u ∷ ts) h = elim (Bool-cases (same_text t u)) [
  | inl same ↦ inl (sym (same_text_eq t u same))
  | inr other ↦ inr (count-OneOf t ts (ground (arith, h, other)))
]

nonempty : (t : Text) (ts : List Text) → OneOf t ts → (length ts == 0) ≡ false
nonempty t [] h = elim h [ ]
nonempty t (u ∷ ts) h = ground arith

-- A file of the play order that is read back is the place in it.
reads_place :
    (c : Config) (e : Env) (w : World)
    → IsSound c e
    → e.answers ≡ true
    → w.source.is_local ≡ true
    → under w.source.local_file c.music_dir ≡ true
    → OneOf w.source.local_file (fallback_tracks e.library)
    → let s = (detect c e w).store in track_at s.tracks s.idx ≡ w.source.local_file
unfolding detect load_fallback
reads_place c e w sound answers here in' known =
    let file = w.source.local_file in
    let tracks = fallback_tracks e.library in
    let some_tracks = nonempty file tracks known in
    let shuffled : OneOf file (e.shuffle tracks) =
      count-OneOf file (e.shuffle tracks)
        (rw (sound.permutes.same_count file tracks) (OneOf-count file tracks known)) in
    rw (detect, load_fallback, answers, here, in', some_tracks)
      (index_of-track_at file (e.shuffle tracks) shuffled)

-- A bot that restarts beside the OBS of a truthful one, with a source that it can read, and reads it
-- back, has the bed and the fallback of the other one, and says the same stream, the same drone or an
-- unlooped file of the share is on air. If that is a file of the library's fallback albums, it is
-- the new bot's place in the play order, from which the album goes on.
pub detect_recovers :
    (c : Config) (bed : Bed) (e : Env) (w : World)
    → IsApart c
    → AreNamed c.stations
    → IsSound c e
    → e.answers ≡ true
    → IsReadable c w.source
    → IsTruthful c w
    → let s = (detect c e (started c bed w.source)).store in
      (s.bed ≡ w.store.bed)
      × (s.fallback ≡ w.store.fallback)
      × (says c s ≡ says c w.store)
      × (w.source.is_local ≡ true
          → under w.source.local_file c.music_dir ≡ true
          → OneOf w.source.local_file (fallback_tracks e.library)
          → track_on_air s album ≡ w.source.local_file)
unfolding started new_store track_on_air
detect_recovers c bed e w apart named sound answers known v =
    let again = started c bed w.source in
    let u = detect-IsTruthful c e again apart sound named answers known tt tt tt in
    let s = (detect c e again).store in
    let same : says c s ≡ says c w.store =
      u.agrees ∙ ap (heard c) (detect-source c e again) ∙ sym v.agrees in
    let kinds =
      sym (kind-says c s s.bed s.fallback refl refl u.chosen u.stands_in)
      ∙ ap kind same
      ∙ kind-says c w.store w.store.bed w.store.fallback refl refl v.chosen v.stands_in in
    (
      ap (λ (k : Bed × Option Bed). k.0) kinds,
      ap (λ (k : Bed × Option Bed). k.1) kinds,
      same,
      λ here in' known. reads_place c e again sound answers here in' known,
    )
