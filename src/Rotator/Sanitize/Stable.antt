-- ===== src/Rotator/Sanitize/Stable.antt =====
-- A second check of stored copy changes nothing.
use tripbot.Base.{
  Text, ℕ, ◌+◌, ◌≡◌, ◌∙◌, sym, ap, subst, refl, ◌⊎◌, inl, inr, false, none, List, [], ◌∷◌, All,
  length, arith, ltb,
}
use tripbot.Rotator.{Message, is_empty}
use tripbot.Rotator.Sanitize.{
  Side, left, right, Pool, messages, promo_messages, rare_message, Corner, Config, ok,
  check_variables, is_too_long, check_line, stored, clean, sanitize_pool, sanitize_corner,
  sanitize_rare, sanitize, max_messages_per_pool,
}
use tripbot.Rotator.Sanitize.Lines.{
  IsRenderable, IsClean, IsSavedPool, IsSavedCorner, check_variables_pass, check_line_pass,
}
use tripbot.Rotator.Sanitize.Saved.{sanitize-IsSaved}

module _ (trim : Text → Text) (rune_count : Text → ℕ) where
  stored_clean :
      (side : Side) (m : Message)
      → IsClean trim rune_count side m
      → stored trim rune_count (trim m.text) m ≡ m
  stored_clean side m h = ground (arith, h.renderable.trimmed, h.not_negative, h.unscoped)

  clean_again :
      (side : Side) (pool : Pool) (i : ℕ) (ms : List Message)
      → All (IsClean trim rune_count side) ms
      → clean trim rune_count side pool i ms ≡ ok ms
  unfolding clean
  clean_again side pool i [] h = refl
  clean_again side pool i (m ∷ ms) (c, h) =
      let r = c.renderable in
      let full : is_empty (trim m.text) ≡ false = ap is_empty r.trimmed ∙ r.not_blank in
      let pass : check_line trim rune_count side pool i (trim m.text) m.weight ≡ none =
        subst (λ t. check_line trim rune_count side pool i t m.weight ≡ none) (sym r.trimmed)
          (check_line_pass trim rune_count side pool i m.text m.weight
            (check_variables_pass trim rune_count side pool i m.text r.declared) r.fits
            c.not_heavy) in
      rw (clean, full, pass, clean_again side pool (i + 1) ms h)
        (ap (λ x. ok (x ∷ ms)) (stored_clean side m c))

  sanitize_pool_again :
      (side : Side) (pool : Pool) (ms : List Message)
      → IsSavedPool trim rune_count side ms
      → sanitize_pool trim rune_count side pool ms ≡ ok ms
  unfolding sanitize_pool
  sanitize_pool_again side pool ms (h, few) =
      let within : ltb max_messages_per_pool (length ms) ≡ false = ground (arith, few) in
      rw (sanitize_pool, clean_again side pool 0 ms h, within) refl

  sanitize_corner_again :
      (side : Side) (c : Corner)
      → IsSavedCorner trim rune_count side c
      → sanitize_corner trim rune_count side c ≡ ok c
  unfolding sanitize_corner
  sanitize_corner_again side c (h, k) =
      rw
        (
          sanitize_corner,
          sanitize_pool_again side messages c.messages h,
          sanitize_pool_again side promo_messages c.promo_messages k,
        )
        refl

  sanitize_rare_again :
      (text : Text)
      → trim [] ≡ []
      → (text ≡ []) ⊎ IsRenderable trim rune_count left text
      → sanitize_rare trim rune_count text ≡ ok text
  unfolding sanitize_rare
  sanitize_rare_again text blank (inl nil) = rw (nil, sanitize_rare, blank) refl
  sanitize_rare_again text blank (inr r) =
      let full : is_empty (trim text) ≡ false = ap is_empty r.trimmed ∙ r.not_blank in
      let pass : check_variables left rare_message 0 (trim text) ≡ none =
        ap (check_variables left rare_message 0) r.trimmed
        ∙ check_variables_pass trim rune_count left rare_message 0 text r.declared in
      let short : is_too_long trim rune_count left (trim text) ≡ false =
        ap (is_too_long trim rune_count left) r.trimmed ∙ r.fits in
      rw (sanitize_rare, full, pass, short) (ap (λ t. ok t) r.trimmed)

  -- Checking what `Sanitize` returned returns it again. Trimming a trimmed text changes nothing, and
  -- neither does trimming the empty one.
  pub sanitize_idempotent :
      (cfg out : Config)
      → ((t : Text) → trim (trim t) ≡ trim t)
      → trim [] ≡ []
      → sanitize trim rune_count cfg ≡ ok out
      → sanitize trim rune_count out ≡ ok out
  unfolding sanitize
  sanitize_idempotent cfg out idem blank h =
      let (l, r, x) = sanitize-IsSaved trim rune_count cfg out idem h in
      rw
        (
          sanitize,
          sanitize_corner_again left out.left l,
          sanitize_corner_again right out.right r,
          sanitize_rare_again out.rare_message blank x,
        )
        refl
