-- ===== src/Fuzzy/Tests.antt =====
-- The fuzzy lookup on concrete triggers.
use mathlib.Core.List.Perm
use Prim.Native.Char.{code}
use Prim.Native.String.{String}
use tripbot.Base.{◌≤◌, ◌≡◌, refl, none, some, List, [], ◌∷◌, length}
use tripbot.Fuzzy.{
  Text, Entry, fuzzy_lookup, search_all, consider, compare_best, levenshtein, fill_rows, fill,
  first_row, fuzzy_max_distance,
}
use tripbot.Fuzzy.Rows.{levenshtein-IsDistance}
use tripbot.Fuzzy.Edits.{IsDistance}
use tripbot.Fuzzy.Order.{fuzzy_lookup-Perm}
use tripbot.Fuzzy.Best.{fuzzy_lookup_iff}

abbrev codes : String → Text
codes String.[] = []
codes (String.◌∷◌ c s) = code c ∷ codes s

abbrev date_trigger : Entry
date_trigger = (codes "!date", 0)

abbrev state_trigger : Entry
state_trigger = (codes "!state", 1)

abbrev miles_trigger : Entry
miles_trigger = (codes "!miles", 2)

abbrev triggers : List Entry
triggers = date_trigger ∷ state_trigger ∷ miles_trigger ∷ []

kitten : levenshtein (codes "kitten") (codes "sitting") ≡ 3
unfolding levenshtein fill_rows fill first_row
kitten = refl

-- "!tate" is one edit from both !date and !state.
tate : fuzzy_lookup triggers (codes "!tate") ≡ none
unfolding fuzzy_lookup search_all consider compare_best levenshtein fill_rows fill first_row
    fuzzy_max_distance
tate = refl

mile : fuzzy_lookup triggers (codes "!mile") ≡ some 2
unfolding fuzzy_lookup search_all consider compare_best levenshtein fill_rows fill first_row
    fuzzy_max_distance
mile = refl

levenshtein-IsDistance_example : IsDistance (codes "!mile") (codes "!miles") 1
unfolding levenshtein fill_rows fill first_row
levenshtein-IsDistance_example = levenshtein-IsDistance (codes "!mile") (codes "!miles")

fuzzy_lookup-Perm_example :
    fuzzy_lookup (date_trigger ∷ miles_trigger ∷ []) (codes "!mile")
    ≡ fuzzy_lookup (miles_trigger ∷ date_trigger ∷ []) (codes "!mile")
fuzzy_lookup-Perm_example =
    fuzzy_lookup-Perm (date_trigger ∷ miles_trigger ∷ []) (miles_trigger ∷ date_trigger ∷ [])
      (codes "!mile") (Perm.swap miles_trigger date_trigger [])

fuzzy_lookup_iff_example : 4 ≤ length (codes "!mile")
fuzzy_lookup_iff_example = ((fuzzy_lookup_iff triggers (codes "!mile") 2).0 mile).0
