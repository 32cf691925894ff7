-- ===== src/Fuzzy.antt =====
-- pkg/chatbot/fuzzy.go: texts are lists of runes, and a command is known by a number, its pointer.
pub mod Edits
pub mod Rows
pub mod Order
pub mod Best
pub mod Entries
mod Tests
use tripbot.Base.{
  ℕ, zero, suc, ◌+◌, min, Bool, true, false, Option, none, some, List, [], ◌∷◌, ◌==◌, ltb, leb, not,
  ◌&&◌, if◌then◌else◌, length,
}

abbrev pub Text : Type 0
Text = List ℕ

-- `fuzzyMaxDistance`.
unfoldable pub fuzzy_max_distance : ℕ → ℕ
fuzzy_max_distance n = if ltb n 4 then 0 else (if leb n 6 then 1 else 2)

-- The numbers from `j` on, one more than the runes of the text: the first row.
unfoldable pub first_row : ℕ → Text → List ℕ
first_row j [] = j ∷ []
first_row j (b ∷ bs) = j ∷ first_row (j + 1) bs

-- The inner loop of `levenshtein`: `above` is `prev` from `j - 1` on, and `left` is `curr[j-1]`.
unfoldable pub fill : ℕ → Text → List ℕ → ℕ → List ℕ
fill a [] above left = []
fill a (b ∷ bs) [] left = []
fill a (b ∷ bs) (d ∷ []) left = []
fill a (b ∷ bs) (d ∷ u ∷ above) left =
    let v = min (min (u + 1) (left + 1)) (d + (if a == b then 0 else 1)) in
    v ∷ fill a bs (u ∷ above) v

-- The outer loop, at row `i`.
unfoldable pub fill_rows : ℕ → Text → Text → List ℕ → List ℕ
fill_rows i [] bs prev = prev
fill_rows i (a ∷ rest) bs prev = fill_rows (i + 1) rest bs (i ∷ fill a bs prev i)

abbrev last_or : ℕ → List ℕ → ℕ
last_or x [] = x
last_or x (y ∷ ys) = last_or y ys

unfoldable pub levenshtein : Text → Text → ℕ
levenshtein a b = last_or 0 (fill_rows 1 a b (first_row 0 b))

-- An entry of `singleWordLookup`: a trigger or alias, and its command.
abbrev pub Entry : Type 0
Entry = Text × ℕ

pub record Search : Type 0 where
  pub best : Option ℕ
  pub best_dist : ℕ
  pub ambiguous : Bool

abbrev pub is_bang : Text → Bool
is_bang [] = false
is_bang (c ∷ cs) = c == b'!'

-- `cmd != best`.
abbrev pub differs : ℕ → Option ℕ → Bool
differs c none = true
differs c (some b) = not (c == b)

-- The loop's body on a trigger at distance `dist`.
unfoldable pub compare_best : ℕ → ℕ → ℕ → Search → Search
compare_best max_dist dist c s =
    if ltb max_dist dist
    then s
    else (if ltb dist s.best_dist
        then record { best = some c; best_dist = dist; ambiguous = false }
        else (if dist == s.best_dist && differs c s.best then record s { ambiguous = true } else s))

unfoldable pub consider : Text → ℕ → Entry → Search → Search
unfolding compare_best
consider command max_dist (trigger, c) s =
    if is_bang trigger then compare_best max_dist (levenshtein command trigger) c s else s

unfoldable pub search_all : Text → ℕ → List Entry → Search → Search
search_all command max_dist [] s = s
search_all command max_dist (e ∷ es) s =
    search_all command max_dist es (consider command max_dist e s)

-- `fuzzyLookup`, over the entries in the order in which the map yields them.
unfoldable pub fuzzy_lookup : List Entry → Text → Option ℕ
fuzzy_lookup entries command =
    let max_dist = fuzzy_max_distance (length command) in
    let found =
      search_all command max_dist entries
        (record { best = none; best_dist = max_dist + 1; ambiguous = false }) in
    if max_dist == 0 then none else (if found.ambiguous then none else found.best)
