-- ===== src/Beds/Albums.antt =====
-- Store: which tracks the album fallback plays, and in which order.
use tripbot.Base.{
  ◌≡◌, refl, ◌⊎◌, inl, inr, some, List, [], ◌∷◌, ◌++◌, All, All-append, Text, codes, has_prefix,
  has_prefix_eq, mem_text, arith, Bool-cases, subst, OneOf,
}
use tripbot.Beds.Library.{
  Albums, fallback_albums, names, tracks_of, albums_for, fallback_tracks, under_prefix, all_tracks,
  tracks_for,
}
use tripbot.Beds.Store.{Store, Env}
use tripbot.Beds.Order.{All-shuffle}
use tripbot.Beds.Fallback.{load_fallback}
use tripbot.Beds.Sound.{Permutes}

-- An album that an entry covers: its own name, or a name that goes on after a dash.
abbrev pub Covers : Text → Text → Type 0
Covers sel name = (name ≡ sel) ⊎ ((rest : Text) × (name ≡ (sel ++ codes "-") ++ rest))

-- A track of an album that one of the entries covers.
abbrev pub Allowed : Albums → List Text → Text → Type 0
Allowed library [] t = ⊥
Allowed library (sel ∷ sels) t =
    ((name : Text) × Covers sel name × OneOf t (tracks_of library name)) ⊎ Allowed library sels t

under_prefix-All :
    (sel : Text) (albums : List Text) → All (Covers sel) (under_prefix (sel ++ codes "-") albums)
under_prefix-All sel [] = tt
under_prefix-All sel (a ∷ albums) = elim (Bool-cases (has_prefix (sel ++ codes "-") a)) [
  | inl here ↦
      rw (under_prefix, here)
        (inr (has_prefix_eq (sel ++ codes "-") a here), under_prefix-All sel albums)
  | inr other ↦ rw (under_prefix, other) (under_prefix-All sel albums)
]

albums_for-Covers : (albums : List Text) (sel : Text) → All (Covers sel) (albums_for albums sel)
unfolding albums_for
albums_for-Covers albums sel = elim (Bool-cases (mem_text sel albums)) [
  | inl here ↦ rw (albums_for, here) (inl refl, tt)
  | inr gone ↦ rw (albums_for, gone) (under_prefix-All sel albums)
]

here_Allowed :
    (library : Albums) (sel : Text) (sels : List Text) (name : Text) (ts : List Text)
    → Covers sel name
    → ((t : Text) → OneOf t ts → OneOf t (tracks_of library name))
    → All (Allowed library (sel ∷ sels)) ts
here_Allowed library sel sels name [] covers sub = tt
here_Allowed library sel sels name (t ∷ ts) covers sub = (
  inl (name, covers, sub t (inl refl)),
  here_Allowed library sel sels name ts covers (λ u m. sub u (inr m)),
)

-- The tracks of an entry's albums, before any later entries.
all_tracks-Allowed :
    (library : Albums) (sel : Text) (sels : List Text) (albums : List Text)
    → All (Covers sel) albums
    → All (Allowed library (sel ∷ sels)) (all_tracks library albums)
all_tracks-Allowed library sel sels [] h = tt
all_tracks-Allowed library sel sels (a ∷ albums) h =
    All-append (Allowed library (sel ∷ sels)) (tracks_of library a) (all_tracks library albums)
      (here_Allowed library sel sels a (tracks_of library a) h.0 (λ t m. m))
      (all_tracks-Allowed library sel sels albums h.1)

later_Allowed :
    (library : Albums) (sel : Text) (sels ts : List Text)
    → All (Allowed library sels) ts
    → All (Allowed library (sel ∷ sels)) ts
later_Allowed library sel sels [] h = tt
later_Allowed library sel sels (t ∷ ts) h = (inr h.0, later_Allowed library sel sels ts h.1)

tracks_for-Allowed :
    (library : Albums) (sels : List Text) → All (Allowed library sels) (tracks_for library sels)
tracks_for-Allowed library [] = tt
tracks_for-Allowed library (sel ∷ sels) =
    let albums = albums_for (names library) sel in
    All-append (Allowed library (sel ∷ sels)) (all_tracks library albums) (tracks_for library sels)
      (all_tracks-Allowed library sel sels albums (albums_for-Covers (names library) sel))
      (later_Allowed library sel sels (tracks_for library sels) (tracks_for-Allowed library sels))

-- Every track of a play order that is loaded, by a swap onto the fallback or by reading the bed
-- back, is in an album that has the name of one of the fallback albums, or that name, a dash and
-- more. The shuffle permutes.
pub load_fallback-Allowed :
    (e : Env) (on_air : Text) (s s' : Store)
    → Permutes e.shuffle
    → load_fallback e on_air s ≡ some s'
    → All (Allowed e.library fallback_albums) s'.tracks
unfolding load_fallback fallback_tracks
load_fallback-Allowed e on_air s s' perm h =
    let tracks = tracks_for e.library fallback_albums in
    subst (All (Allowed e.library fallback_albums)) (ground (arith, h)) (
      All-shuffle (Allowed e.library fallback_albums) e.shuffle tracks perm
        (tracks_for-Allowed e.library fallback_albums))
