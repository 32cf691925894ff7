-- ===== src/Fuzzy/Order.antt =====
-- `fuzzyLookup` ranges over a map, whose order is random: its answer does not depend on it.
use mathlib.Core.List.{Perm, Permᴰ}
use mathlib.Core.Logic.{∥∥₁_elim}
use mathlib.Core.Path.{ap₂}
use native.Mathlib.Nat.{ℕ_set}
use tripbot.Base.{
  ℕ, ◌+◌, ◌≡◌, refl, sym, ap, ◌∙◌, false, Option, none, some, List, [], ◌∷◌, arith, ◌==◌, ltb,
  length, if◌then◌else◌,
}
use tripbot.Fuzzy.{
  Text, Entry, Search, is_bang, compare_best, consider, search_all, levenshtein, fuzzy_max_distance,
  fuzzy_lookup,
}

-- What the rest of the loop can tell of its variables: the best distance, and the command if one
-- alone has it.
abbrev pub View : Type 0
View = ℕ × Option ℕ

abbrev pub view : Search → View
view s = (s.best_dist, if s.ambiguous then none else s.best)

abbrev agree : ℕ → Option ℕ → Option ℕ
agree c none = none
agree c (some b) = if c == b then some b else none

unfoldable pub compare_view : ℕ → ℕ → ℕ → View → View
compare_view max_dist dist c (d, r) =
    if ltb max_dist dist
    then (d, r)
    else (if ltb dist d then (dist, some c) else (if dist == d then (d, agree c r) else (d, r)))

view-compare_best :
    (max_dist dist c : ℕ) (s : Search)
    → view (compare_best max_dist dist c s) ≡ compare_view max_dist dist c (view s)
unfolding compare_best compare_view
view-compare_best max_dist dist c s = ground arith

compare_view_comm :
    (m d c d' c' : ℕ) (v : View)
    → compare_view m d c (compare_view m d' c' v) ≡ compare_view m d' c' (compare_view m d c v)
unfolding compare_view
compare_view_comm m d c d' c' (b, none) = ground arith
compare_view_comm m d c d' c' (b, some r) = ground arith

unfoldable pub view_consider : Text → ℕ → Entry → View → View
view_consider command m (trigger, c) v =
    if is_bang trigger then compare_view m (levenshtein command trigger) c v else v

view-consider :
    (command : Text) (m : ℕ) (e : Entry) (s : Search)
    → view (consider command m e s) ≡ view_consider command m e (view s)
unfolding consider view_consider
view-consider command m (trigger, c) s =
    ground (arith, view-compare_best m (levenshtein command trigger) c s)

view_consider_comm :
    (command : Text) (m : ℕ) (e e' : Entry) (v : View)
    → view_consider command m e (view_consider command m e' v)
      ≡ view_consider command m e' (view_consider command m e v)
unfolding view_consider
view_consider_comm command m (t, c) (t', c') v =
    ground (arith, compare_view_comm m (levenshtein command t) c (levenshtein command t') c' v)

unfoldable pub view_all : Text → ℕ → List Entry → View → View
view_all command m [] v = v
view_all command m (e ∷ es) v = view_all command m es (view_consider command m e v)

view-search_all :
    (command : Text) (m : ℕ) (es : List Entry) (s : Search)
    → view (search_all command m es s) ≡ view_all command m es (view s)
unfolding search_all view_all
view-search_all command m [] s = refl
view-search_all command m (e ∷ es) s =
    view-search_all command m es (consider command m e s)
    ∙ ap (view_all command m es) (view-consider command m e s)

-- The answer, from the view alone.
pub fuzzy_lookup-view :
    (es : List Entry) (command : Text)
    → let m = fuzzy_max_distance (length command) in
      fuzzy_lookup es command ≡ (if m == 0 then none else (view_all command m es (m + 1, none)).1)
unfolding fuzzy_lookup
fuzzy_lookup-view es command =
    let m = fuzzy_max_distance (length command) in
    let s : Search = record { best = none; best_dist = m + 1; ambiguous = false } in
    ap (λ (v : View). if m == 0 then none else v.1) (view-search_all command m es s)

view_all-Permᴰ :
    (command : Text) (m : ℕ) {es fs : List Entry}
    → Permᴰ es fs
    → (v : View) → view_all command m es v ≡ view_all command m fs v
unfolding view_all
view_all-Permᴰ command m Permᴰ.nil v = refl
view_all-Permᴰ command m (Permᴰ.cons {a} {b} {l₁} {l₂} e p) v =
    view_all-Permᴰ command m p (view_consider command m a v)
    ∙ ap (λ x. view_all command m l₂ (view_consider command m x v)) e
view_all-Permᴰ command m (Permᴰ.swap {a} {b} {a'} {b'} {l} p q) v = ap (view_all command m l) (
    view_consider_comm command m b a v
    ∙ ap₂ (λ x y. view_consider command m x (view_consider command m y v)) p q)
view_all-Permᴰ command m (Permᴰ.trans p q) v =
    view_all-Permᴰ command m p v ∙ view_all-Permᴰ command m q v

-- Any order of the same entries gives the same answer.
pub fuzzy_lookup-Perm :
    (es fs : List Entry) (command : Text)
    → Perm es fs
    → fuzzy_lookup es command ≡ fuzzy_lookup fs command
fuzzy_lookup-Perm es fs command p =
    let m = fuzzy_max_distance (length command) in
    ∥∥₁_elim p (hlevel ℕ_set) λ d.
      fuzzy_lookup-view es command
      ∙ ap (λ (v : View). if m == 0 then none else v.1) (view_all-Permᴰ command m d (m + 1, none))
      ∙ sym (fuzzy_lookup-view fs command)
