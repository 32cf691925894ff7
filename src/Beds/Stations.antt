-- ===== src/Beds/Stations.antt =====
-- stations.go: the list of radio stations, as it is read; a list read again is another argument. The
-- empty text stands for no station and no URL.
use tripbot.Base.{
  ◌≡◌, refl, ◌≢◌, inl, inr, Bool, true, false, not, Option, none, some, List, [], ◌∷◌, Text,
  same_text, same_text_eq, same_text_self, Bool-cases, Option-cases, if◌then◌else◌, arith, ap,
}

pub record Station : Type 0 where
  pub id : Text
  pub name : Text
  pub url : Text
  pub private : Bool

unfoldable pub station : List Station → Text → Option Station
station [] id = none
station (s ∷ ss) id = let rest = station ss id in if same_text s.id id then some s else rest

unfoldable pub default_station : List Station → Text
default_station [] = []
default_station (s ∷ ss) = let rest = default_station ss in if s.private then rest else s.id

abbrev url_of : Option Station → Text
url_of none = []
url_of (some s) = s.url

unfoldable pub stream_url : List Station → Text → Text
unfolding station
stream_url ss id = url_of (station ss id)

unfoldable pub station_from_url : List Station → Text → Text
station_from_url [] u = []
station_from_url (s ∷ ss) u =
    let rest = station_from_url ss u in if same_text s.url u then s.id else rest

abbrev is_public : Option Station → Bool
is_public none = false
is_public (some s) = not s.private

unfoldable pub selectable_station : List Station → Text → Bool
unfolding station
selectable_station ss id = is_public (station ss id)

abbrev name_of : Text → Option Station → Text
name_of id none = id
name_of id (some s) = s.name

unfoldable pub station_name : List Station → Text → Text
unfolding station
station_name ss id = name_of id (station ss id)

-- No URL of the list is this one.
abbrev NoUrl : Text → List Station → Type 0
NoUrl u [] = Unit
NoUrl u (s ∷ ss) = (same_text s.url u ≡ false) × NoUrl u ss

-- Every station has its own URL.
abbrev pub AreDistinct : List Station → Type 0
AreDistinct [] = Unit
AreDistinct (s ∷ ss) = NoUrl s.url ss × AreDistinct ss

-- No station of the list has this id.
abbrev NoId : Text → List Station → Type 0
NoId id [] = Unit
NoId id (s ∷ ss) = (same_text s.id id ≡ false) × NoId id ss

-- What `readStations` accepts: every id is there and is unique.
abbrev pub AreNamed : List Station → Type 0
AreNamed [] = Unit
AreNamed (s ∷ ss) = (same_text s.id [] ≡ false) × NoId s.id ss × AreNamed ss

station-none : (ss : List Station) (id : Text) → NoId id ss → station ss id ≡ none
unfolding station
station-none [] id h = refl
station-none (s ∷ ss) id h = rw (station, h.0) (station-none ss id h.1)

no_url :
    (ss : List Station) (u id : Text) (s : Station)
    → NoUrl u ss
    → station ss id ≡ some s
    → same_text s.url u ≡ false
unfolding station
no_url [] u id s n h = ground arith
no_url (t ∷ ss) u id s n h = elim (Bool-cases (same_text t.id id)) [
  | inl same ↦ ground arith
  | inr other ↦ no_url ss u id s n.1 (ground arith)
]

station-id : (ss : List Station) (id : Text) (s : Station) → station ss id ≡ some s → s.id ≡ id
unfolding station
station-id [] id s h = ground arith
station-id (t ∷ ss) id s h = elim (Bool-cases (same_text t.id id)) [
  | inl same ↦ ground (arith, same_text_eq t.id id same)
  | inr other ↦ station-id ss id s (ground arith)
]

-- A station of a list without repeated URLs is found again by its URL.
station_from_url-url :
    (ss : List Station) (id : Text) (s : Station)
    → AreDistinct ss
    → station ss id ≡ some s
    → station_from_url ss s.url ≡ id
unfolding station station_from_url
station_from_url-url [] id s d h = ground arith
station_from_url-url (t ∷ ss) id s d h = elim (Bool-cases (same_text t.id id)) [
  | inl same ↦ ground (arith, same_text_eq t.id id same, same_text_self t.url)
  | inr other ↦
      let later : station ss id ≡ some s = ground arith in
      ground (
        arith,
        station_from_url-url ss id s d.1 later,
        no_url ss t.url id s d.0 later,
        same_text_eq t.url s.url,
        same_text_self t.url,
      )
]

pub station_from_url-stream_url :
    (ss : List Station) (id : Text)
    → AreDistinct ss
    → stream_url ss id ≢ []
    → station_from_url ss (stream_url ss id) ≡ id
unfolding stream_url
station_from_url-stream_url ss id d h = elim (Option-cases (station ss id)) [
  | inl missing ↦ absurd (h (rw (stream_url, missing) refl))
  | inr (s, found) ↦ rw found (station_from_url-url ss id s d found)
]

-- The station that a URL stands for is the first one with it.
-- A later station is found past one with another id.
later_station :
    (ss : List Station) (t : Station) (id : Text) (s : Station)
    → NoId t.id ss
    → station ss id ≡ some s
    → station (t ∷ ss) id ≡ some s
unfolding station
later_station ss t id s n found = elim (Bool-cases (same_text t.id id)) [
  | inl same ↦
      ground
        (arith, station-none ss t.id n, ap (λ (x : Text). station ss x) (same_text_eq t.id id same))
  | inr other ↦ rw (station, other) found
]

station_from_url-found :
    (ss : List Station) (u : Text)
    → AreNamed ss
    → same_text (station_from_url ss u) [] ≡ false
    → (s : Station) × (station ss (station_from_url ss u) ≡ some s) × (s.url ≡ u)
unfolding station station_from_url
station_from_url-found [] u n h = ground arith
station_from_url-found (t ∷ ss) u n h = elim (Bool-cases (same_text t.url u)) [
  | inl same ↦
      rw (station_from_url, same)
        (t, ground (arith, same_text_self t.id), same_text_eq t.url u same)
  | inr other ↦
      let (s, found, url) = station_from_url-found ss u n.2 (ground (arith, other)) in
      rw (station_from_url, other) (s, later_station ss t (station_from_url ss u) s n.1 found, url)
]

pub stream_url-station_from_url :
    (ss : List Station) (u : Text)
    → AreNamed ss
    → same_text (station_from_url ss u) [] ≡ false
    → stream_url ss (station_from_url ss u) ≡ u
unfolding stream_url
stream_url-station_from_url ss u n h =
    let (s, found, url) = station_from_url-found ss u n h in rw found url

-- The default station is a public one of the list, unless there is none.
pub selectable_station-default_station :
    (ss : List Station)
    → AreNamed ss
    → same_text (default_station ss) [] ≡ false
    → selectable_station ss (default_station ss) ≡ true
unfolding selectable_station default_station station
selectable_station-default_station [] n h = ground arith
selectable_station-default_station (s ∷ ss) n h = elim (Bool-cases s.private) [
  | inl hidden ↦
      let d = default_station ss in
      let ih : is_public (station ss d) ≡ true =
        selectable_station-default_station ss n.2 (ground arith) in
      elim (Bool-cases (same_text s.id d)) [
        | inl same ↦
            let gone = station-none ss s.id n.1 in
            ground (arith, ap (λ (t : Text). is_public (station ss t)) (same_text_eq s.id d same))
        | inr other ↦ ground (arith, hidden, other)
      ]
  | inr shown ↦ ground (arith, shown, same_text_self s.id)
]
