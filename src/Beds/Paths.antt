-- ===== src/Beds/Paths.antt =====
-- beds.go: paths. `filepath.Dir`, `Base` and `Rel` are written out for absolute paths, cleaned to
-- the list of their segments; the share's root is an absolute path.
use tripbot.Base.{
  split, ◌≡◌, refl, Bool, true, false, ◌&&◌, ◌||◌, List, [], ◌∷◌, ◌++◌, Text, codes, same_text,
  mem_text, trim_prefix, mem_text-OneOf, ◌==◌, if◌then◌else◌, inl, inr, subst,
}

abbrev pub reverse_onto : List Text → List Text → List Text
reverse_onto acc [] = acc
reverse_onto acc (s ∷ ss) = reverse_onto (s ∷ acc) ss

abbrev tail : List Text → List Text
tail [] = []
tail (s ∷ ss) = ss

-- One segment in `filepath.Clean` of an absolute path, on the stack of those before it.
abbrev step_into : Text → List Text → List Text
step_into s stack =
    if same_text s [] || same_text s (codes ".")
    then stack
    else (if same_text s (codes "..") then tail stack else s ∷ stack)

abbrev walk : List Text → List Text → List Text
walk stack [] = reverse_onto [] stack
walk stack (s ∷ ss) = walk (step_into s stack) ss

abbrev clean : List Text → List Text
clean = walk []

abbrev rooted : Text → Bool
rooted [] = false
rooted (c ∷ s) = c == b'/'

abbrev pub segments : Text → List Text
segments file = clean (split b'/' file)

abbrev same_texts : List Text → List Text → Bool
same_texts [] [] = true
same_texts [] (y ∷ ys) = false
same_texts (x ∷ xs) [] = false
same_texts (x ∷ xs) (y ∷ ys) = let rest = same_texts xs ys in if same_text x y then rest else false

-- The segments below a directory, if they lie there.
abbrev lies_in : List Text → List Text → Bool
lies_in [] file = true
lies_in (d ∷ dir) [] = false
lies_in (d ∷ dir) (s ∷ file) = let rest = lies_in dir file in if same_text d s then rest else false

abbrev below : List Text → List Text → List Text
below [] file = file
below (d ∷ dir) [] = []
below (d ∷ dir) (s ∷ file) = below dir file

unfoldable pub under : Text → Text → Bool
under file dir = rooted file && rooted dir && lies_in (segments dir) (segments file)

abbrev first_of_many : List Text → Text
first_of_many [] = []
first_of_many (s ∷ []) = []
first_of_many (s ∷ t ∷ rest) = s

unfoldable pub album_from_file : Text → Text → Text
unfolding under
album_from_file file music_dir =
    if under file music_dir then first_of_many (below (segments music_dir) (segments file)) else []

abbrev all_but_last : List Text → List Text
all_but_last [] = []
all_but_last (s ∷ []) = []
all_but_last (s ∷ t ∷ rest) = s ∷ all_but_last (t ∷ rest)

-- The last segment with a name, for `filepath.Base`.
abbrev last_named : List Text → Text
last_named [] = []
last_named (s ∷ ss) = let rest = last_named ss in if same_text rest [] then s else rest

abbrev trim_suffix : Text → Text → Text
trim_suffix suffix [] = []
trim_suffix suffix (c ∷ s) =
    let rest = c ∷ trim_suffix suffix s in if same_text (c ∷ s) suffix then [] else rest

abbrev pub car_hum_dir : Text
car_hum_dir = codes "/opt/tripbot/assets/carhum"

abbrev pub music_dir : Text
music_dir = codes "/opt/tripbot/assets/music"

abbrev pub fallback_file : Text
fallback_file = codes "/opt/tripbot/assets/carhum/car-hum-fallback.flac"

abbrev pub voicings : List Text
voicings = codes "idle" ∷ codes "highway" ∷ codes "backroad" ∷ codes "mountain" ∷ []

abbrev pub default_voicing : Text
default_voicing = codes "idle"

unfoldable pub valid_voicing : Text → Bool
valid_voicing v = mem_text v voicings

unfoldable pub car_hum_file : Text → Text
unfolding valid_voicing
car_hum_file v =
    let voicing = if valid_voicing v then v else default_voicing in
    car_hum_dir ++ codes "/" ++ codes "car-hum-" ++ voicing ++ codes ".flac"

-- The empty text for a file that is no drone's.
unfoldable pub voicing_from_file : Text → Text
unfolding valid_voicing
voicing_from_file file =
    let parts = split b'/' file in
    let v = trim_suffix (codes ".flac") (trim_prefix (codes "car-hum-") (last_named parts)) in
    if rooted file && same_texts (clean (all_but_last parts)) (segments car_hum_dir)
    then (if valid_voicing v then v else [])
    else []

-- What holds of every shipped voicing holds of a valid one.
pub valid_voicing_cases :
    (P : Text → Type 0) (v : Text)
    → valid_voicing v ≡ true
    → P (codes "idle")
    → P (codes "highway")
    → P (codes "backroad")
    → P (codes "mountain")
    → P v
unfolding valid_voicing
valid_voicing_cases P v valid idle highway backroad mountain =
    elim (mem_text-OneOf v voicings valid) [
      | inl e ↦ subst P e idle
      | inr (inl e) ↦ subst P e highway
      | inr (inr (inl e)) ↦ subst P e backroad
      | inr (inr (inr (inl e))) ↦ subst P e mountain
      | inr (inr (inr (inr h))) ↦ elim h [ ]
    ]

-- The voicing of a shipped drone's file is read back off its path, and the watchdog's copy of the
-- drone names none.
pub voicing_from_file-car_hum_file :
    (v : Text) → valid_voicing v ≡ true → voicing_from_file (car_hum_file v) ≡ v
unfolding voicing_from_file car_hum_file
voicing_from_file-car_hum_file v valid =
    valid_voicing_cases (λ v. voicing_from_file (car_hum_file v) ≡ v) v valid refl refl refl refl

pub voicing_from_file-fallback_file : voicing_from_file fallback_file ≡ []
unfolding voicing_from_file
voicing_from_file-fallback_file = refl
