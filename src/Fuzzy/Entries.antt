-- ===== src/Fuzzy/Entries.antt =====
-- fuzzyLookup answers only with a command of its entries.
use tripbot.Base.{
  ℕ, ◌+◌, ◌≡◌, ◌⊎◌, inl, inr, false, Option, none, some, List, [], ◌∷◌, All, arith, length,
  Bool-cases, subst, sym,
}
use tripbot.Fuzzy.{
  Text, Entry, Search, is_bang, levenshtein, compare_best, consider, search_all, fuzzy_lookup,
  fuzzy_max_distance,
}

abbrev IsFrom : (ℕ → Type 0) → Option ℕ → Type 0
IsFrom P none = Unit
IsFrom P (some c) = P c

compare_best-best :
    (max_dist dist c : ℕ) (s : Search)
    → ((compare_best max_dist dist c s).best ≡ s.best)
      ⊎ ((compare_best max_dist dist c s).best ≡ some c)
unfolding compare_best
compare_best-best max_dist dist c s = ground arith

consider-IsFrom :
    (P : ℕ → Type 0) (command : Text) (max_dist : ℕ) (e : Entry) (s : Search)
    → P e.1
    → IsFrom P s.best
    → IsFrom P (consider command max_dist e s).best
unfolding consider
consider-IsFrom P command max_dist (trigger, c) s pc h = elim (Bool-cases (is_bang trigger)) [
  | inr plain ↦ rw (consider, plain) h
  | inl bang ↦
      rw (consider, bang)
        (elim (compare_best-best max_dist (levenshtein command trigger) c s) [
          | inl kept ↦ subst (IsFrom P) (sym kept) h
          | inr taken ↦ subst (IsFrom P) (sym taken) pc
        ])
]

search_all-IsFrom :
    (P : ℕ → Type 0) (command : Text) (max_dist : ℕ) (es : List Entry) (s : Search)
    → All (λ e. P e.1) es
    → IsFrom P s.best
    → IsFrom P (search_all command max_dist es s).best
unfolding search_all
search_all-IsFrom P command max_dist [] s each h = h
search_all-IsFrom P command max_dist (e ∷ es) s each h =
    search_all-IsFrom P command max_dist es (consider command max_dist e s) each.1
      (consider-IsFrom P command max_dist e s each.0 h)

-- What holds of every entry's command holds of the answer.
pub fuzzy_lookup-All :
    (P : ℕ → Type 0) (command : Text) (es : List Entry) (c : ℕ)
    → All (λ e. P e.1) es
    → fuzzy_lookup es command ≡ some c
    → P c
unfolding fuzzy_lookup
fuzzy_lookup-All P command es c each h =
    let m = fuzzy_max_distance (length command) in
    let s =
      search_all command m es (record { best = none; best_dist = m + 1; ambiguous = false }) in
    let best : s.best ≡ some c = ground (arith, h) in
    subst (IsFrom P) best (
      search_all-IsFrom P command m es
        (record { best = none; best_dist = m + 1; ambiguous = false }) each tt)
