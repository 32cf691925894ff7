-- ===== src/Beds/Library.antt =====
-- beds.go: the albums that the fallback plays. The library is what `albumTracks` reads, as the list
-- of its albums in the order of their names, each with its tracks; the shuffle and the random index
-- are arguments, so that every one of them is covered.
use tripbot.Base.{
  ℕ, zero, suc, ◌-◌, ◌&&◌, List, [], ◌∷◌, ◌++◌, length, Text, codes, same_text, mem_text,
  has_prefix, ltb, if◌then◌else◌,
}

abbrev pub Albums : Type 0
Albums = List (Text × List Text)

abbrev pub fallback_albums : List Text
fallback_albums = codes "streambeats" ∷ codes "fifty-horizons" ∷ codes "wyoming-miles" ∷ []

abbrev pub names : Albums → List Text
names [] = []
names ((album, tracks) ∷ rest) = album ∷ names rest

-- `byAlbum[album]`.
unfoldable pub tracks_of : Albums → Text → List Text
tracks_of [] album = []
tracks_of ((a, tracks) ∷ rest) album =
    let later = tracks_of rest album in if same_text a album then tracks else later

abbrev pub under_prefix : Text → List Text → List Text
under_prefix prefix [] = []
under_prefix prefix (a ∷ albums) =
    let rest = under_prefix prefix albums in if has_prefix prefix a then a ∷ rest else rest

unfoldable pub albums_for : List Text → Text → List Text
albums_for albums selection =
    if mem_text selection albums
    then selection ∷ []
    else under_prefix (selection ++ codes "-") albums

abbrev pub all_tracks : Albums → List Text → List Text
all_tracks library [] = []
all_tracks library (a ∷ albums) = tracks_of library a ++ all_tracks library albums

abbrev pub tracks_for : Albums → List Text → List Text
tracks_for library [] = []
tracks_for library (sel ∷ selections) =
    all_tracks library (albums_for (names library) sel) ++ tracks_for library selections

-- What `loadFallbackLocked` collects before it shuffles.
unfoldable pub fallback_tracks : Albums → List Text
unfolding tracks_of albums_for
fallback_tracks library = tracks_for library fallback_albums

-- `tracks[i]`, and the empty text out of range.
abbrev pub track_at : List Text → ℕ → Text
track_at [] i = []
track_at (t ∷ ts) zero = t
track_at (t ∷ ts) (suc i) = track_at ts i

abbrev pub set_track : List Text → ℕ → Text → List Text
set_track [] i v = []
set_track (t ∷ ts) zero v = v ∷ ts
set_track (t ∷ ts) (suc i) v = t ∷ set_track ts i v

-- `max(slices.Index(tracks, playing), 0)`.
abbrev pub index_from : ℕ → Text → List Text → ℕ
index_from i playing [] = 0
index_from i playing (t ∷ ts) =
    let rest = index_from (suc i) playing ts in if same_text t playing then i else rest

abbrev pub index_of : Text → List Text → ℕ
index_of = index_from 0

-- The first track and the j-th change places.
abbrev pub swap_first : ℕ → List Text → List Text
swap_first zero ts = ts
swap_first (suc j) [] = []
swap_first (suc j) (t ∷ ts) = track_at ts j ∷ set_track ts j t

-- `draw` is `rand.IntN`.
unfoldable pub reshuffle_avoiding : (List Text → List Text) → (ℕ → ℕ) → List Text → Text → List Text
reshuffle_avoiding shuffle draw tracks avoid =
    let ts = shuffle tracks in
    if ltb 1 (length ts) && same_text (track_at ts 0) avoid
    then swap_first (suc (draw (length ts - 1))) ts
    else ts
