-- ===== src/Rotator/Sanitize/Saved.antt =====
-- What a check that passes guarantees of the stored copy.
use tripbot.Base.{
  Text, ℕ, ◌+◌, ◌≡◌, subst, refl, ◌⊎◌, inl, inr, true, List, [], ◌∷◌, All, length, arith, ltb,
  Bool-cases, Option-cases,
}
use tripbot.Rotator.{Message, is_empty}
use tripbot.Rotator.Sanitize.{
  Side, left, right, Pool, messages, promo_messages, rare_message, Corner, Config, ValidationError,
  Result, ok, refused, check_variables, is_too_long, check_line, stored, clean, sanitize_pool,
  sanitize_corner, sanitize_rare, sanitize, cons_to, bounded, max_messages_per_pool,
}
use tripbot.Rotator.Sanitize.Lines.{
  IsRenderable, IsClean, IsSavedPool, IsSavedCorner, IsSaved, line_IsClean, check_variables-none,
}

module _ (trim : Text → Text) (rune_count : Text → ℕ) where
  -- What a result holds, if it holds a value.
  abbrev pub Holds : {A : Type 0} → (A → Type 0) → Result A → Type 0
  Holds P (ok a) = P a
  Holds P (refused e) = Unit {0}

  Holds-cons :
      (side : Side) (m : Message) (r : Result (List Message))
      → IsClean trim rune_count side m
      → Holds (All (IsClean trim rune_count side)) r
      → Holds (All (IsClean trim rune_count side)) (cons_to trim rune_count m r)
  Holds-cons side m (ok ms) h k = (h, k)
  Holds-cons side m (refused e) h k = tt

  clean-Holds :
      (side : Side) (pool : Pool) (i : ℕ) (ms : List Message)
      → ((t : Text) → trim (trim t) ≡ trim t)
      → Holds (All (IsClean trim rune_count side)) (clean trim rune_count side pool i ms)
  unfolding clean
  clean-Holds side pool i [] idem = tt
  clean-Holds side pool i (m ∷ ms) idem = elim (Bool-cases (is_empty (trim m.text))) [
    | inl blank ↦ rw (clean, blank) (clean-Holds side pool (i + 1) ms idem)
    | inr full ↦
        elim (Option-cases (check_line trim rune_count side pool i (trim m.text) m.weight)) [
          | inl pass ↦
              rw (clean, full, pass)
                (Holds-cons side (stored trim rune_count (trim m.text) m)
                  (clean trim rune_count side pool (i + 1) ms)
                  (line_IsClean trim rune_count side pool i m idem full pass)
                  (clean-Holds side pool (i + 1) ms idem))
          | inr (e, bad) ↦ rw (clean, full, bad) tt
        ]
  ]

  bounded-Holds :
      (side : Side) (pool : Pool) (r : Result (List Message))
      → Holds (All (IsClean trim rune_count side)) r
      → Holds (IsSavedPool trim rune_count side) (bounded trim rune_count side pool r)
  bounded-Holds side pool (refused e) h = tt
  bounded-Holds side pool (ok ms) h = elim (Bool-cases (ltb max_messages_per_pool (length ms))) [
    | inl over ↦ rw over tt
    | inr within ↦ rw within (h, ground (arith, within))
  ]

  sanitize_pool-Holds :
      (side : Side) (pool : Pool) (ms : List Message)
      → ((t : Text) → trim (trim t) ≡ trim t)
      → Holds (IsSavedPool trim rune_count side) (sanitize_pool trim rune_count side pool ms)
  unfolding sanitize_pool
  sanitize_pool-Holds side pool ms idem =
      bounded-Holds side pool (clean trim rune_count side pool 0 ms)
        (clean-Holds side pool 0 ms idem)

  Result-cases :
      {A : Type 0} (r : Result A)
      → ((a : A) × (r ≡ ok a)) ⊎ ((e : ValidationError) × (r ≡ refused e))
  Result-cases (ok a) = inl (a, refl)
  Result-cases (refused e) = inr (e, refl)

  held : {A : Type 0} (P : A → Type 0) (r : Result A) (a : A) → Holds P r → r ≡ ok a → P a
  held P r a h e = subst (Holds P) e h

  sanitize_corner-Holds :
      (side : Side) (c : Corner)
      → ((t : Text) → trim (trim t) ≡ trim t)
      → Holds (IsSavedCorner trim rune_count side) (sanitize_corner trim rune_count side c)
  unfolding sanitize_corner
  sanitize_corner-Holds side c idem =
      let first = sanitize_pool trim rune_count side messages c.messages in
      let second = sanitize_pool trim rune_count side promo_messages c.promo_messages in
      let firsts = sanitize_pool-Holds side messages c.messages idem in
      let seconds = sanitize_pool-Holds side promo_messages c.promo_messages idem in
      elim (Result-cases first) [
        | inr (e, bad) ↦ rw (sanitize_corner, bad) tt
        | inl (ms, good) ↦ elim (Result-cases second) [
          | inr (e, bad) ↦ rw (sanitize_corner, good, bad) tt
          | inl (ps, fine) ↦
              rw (sanitize_corner, good, fine)
                (
                  held (IsSavedPool trim rune_count side) first ms firsts good,
                  held (IsSavedPool trim rune_count side) second ps seconds fine,
                )
        ]
      ]

  abbrev IsSavedRare : Text → Type 0
  IsSavedRare text = (text ≡ []) ⊎ IsRenderable trim rune_count left text

  is_empty_nil : (t : Text) → is_empty t ≡ true → t ≡ []
  is_empty_nil [] h = refl
  is_empty_nil (c ∷ cs) h = ground (arith, h)

  sanitize_rare-Holds :
      (text : Text)
      → ((t : Text) → trim (trim t) ≡ trim t)
      → Holds IsSavedRare (sanitize_rare trim rune_count text)
  unfolding sanitize_rare
  sanitize_rare-Holds text idem =
      let rare = trim text in
      elim (Bool-cases (is_empty rare)) [
        | inl blank ↦ rw (sanitize_rare, blank) (inl (is_empty_nil rare blank))
        | inr full ↦ elim (Option-cases (check_variables left rare_message 0 rare)) [
          | inr (e, bad) ↦ rw (sanitize_rare, full, bad) tt
          | inl pass ↦ elim (Bool-cases (is_too_long trim rune_count left rare)) [
            | inl long ↦ rw (sanitize_rare, full, pass, long) tt
            | inr short ↦
                rw (sanitize_rare, full, pass, short)
                  (inr (record {
                    trimmed = idem text;
                    not_blank = full;
                    declared = check_variables-none trim rune_count left rare_message 0 rare pass;
                    fits = short;
                  }))
          ]
        ]
      ]

  sanitize-Holds :
      (cfg : Config)
      → ((t : Text) → trim (trim t) ≡ trim t)
      → Holds (IsSaved trim rune_count) (sanitize trim rune_count cfg)
  unfolding sanitize
  sanitize-Holds cfg idem =
      let l = sanitize_corner trim rune_count left cfg.left in
      let r = sanitize_corner trim rune_count right cfg.right in
      let x = sanitize_rare trim rune_count cfg.rare_message in
      elim (Result-cases l) [
        | inr (e, bad) ↦ rw (sanitize, bad) tt
        | inl (cl, okl) ↦ elim (Result-cases r) [
          | inr (e, bad) ↦ rw (sanitize, okl, bad) tt
          | inl (cr, okr) ↦ elim (Result-cases x) [
            | inr (e, bad) ↦ rw (sanitize, okl, okr, bad) tt
            | inl (t, okx) ↦
                rw (sanitize, okl, okr, okx)
                  (
                    held (IsSavedCorner trim rune_count left) l cl
                        (sanitize_corner-Holds left cfg.left idem) okl,
                    held (IsSavedCorner trim rune_count right) r cr
                        (sanitize_corner-Holds right cfg.right idem) okr,
                    held IsSavedRare x t (sanitize_rare-Holds cfg.rare_message idem) okx,
                  )
          ]
        ]
      ]

  -- Copy that passes `Sanitize` can be stored: every line of each pool is trimmed, not blank, of
  -- declared variables, within its own corner's limit with the variables expanded, of a weight from
  -- 0 to 100 and without platforms, no pool is longer than 100 lines, and the rare line is empty or
  -- can be rendered in the left corner. Trimming a trimmed text changes nothing.
  pub sanitize-IsSaved :
      (cfg out : Config)
      → ((t : Text) → trim (trim t) ≡ trim t)
      → sanitize trim rune_count cfg ≡ ok out
      → IsSaved trim rune_count out
  sanitize-IsSaved cfg out idem h =
      held (IsSaved trim rune_count) (sanitize trim rune_count cfg) out (sanitize-Holds cfg idem) h
