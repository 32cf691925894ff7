-- ===== src/Rotator/Sanitize/Lines.antt =====
-- Copy that can be stored, and what the checks of one line guarantee.
use tripbot.Base.{Text, ℕ, ◌≤◌, ◌≡◌, refl, ◌⊎◌, false, none, List, [], All, length, arith}
use tripbot.Base.Int.{ℤ, pos, ◌≤ℤ◌}
use tripbot.Rotator.{Message, is_empty}
use tripbot.Rotator.Sanitize.{
  Side, left, right, Pool, Corner, Config, unknown_variables_in, check_variables, is_too_long,
  check_line, stored, max_weight, max_messages_per_pool,
}

module _ (trim : Text → Text) (rune_count : Text → ℕ) where
  -- A text that can be rendered in the corner: trimmed, not blank, of declared variables, and not
  -- past the corner's limit with the variables expanded to their examples.
  pub record IsRenderable (side : Side) (text : Text) : Type 0 where
    pub trimmed : trim text ≡ text
    pub not_blank : is_empty text ≡ false
    pub declared : unknown_variables_in text ≡ []
    pub fits : is_too_long trim rune_count side text ≡ false

  pub record IsClean (side : Side) (m : Message) : Type 0 where
    pub renderable : IsRenderable side m.text
    pub not_negative : pos 0 ≤ℤ m.weight
    pub not_heavy : m.weight ≤ℤ pos max_weight
    pub unscoped : m.platforms ≡ []

  abbrev pub IsSavedPool : Side → List Message → Type 0
  IsSavedPool side ms = All (IsClean side) ms × (length ms ≤ max_messages_per_pool)

  abbrev pub IsSavedCorner : Side → Corner → Type 0
  IsSavedCorner side c = IsSavedPool side c.messages × IsSavedPool side c.promo_messages

  -- Copy that can be stored.
  abbrev pub IsSaved : Config → Type 0
  IsSaved cfg =
      IsSavedCorner left cfg.left
      × IsSavedCorner right cfg.right
      × ((cfg.rare_message ≡ []) ⊎ IsRenderable left cfg.rare_message)

  pub check_variables-none :
      (side : Side) (pool : Pool) (i : ℕ) (text : Text)
      → check_variables side pool i text ≡ none
      → unknown_variables_in text ≡ []
  unfolding check_variables
  check_variables-none side pool i text h = ground (arith, h)

  pub check_variables_pass :
      (side : Side) (pool : Pool) (i : ℕ) (text : Text)
      → unknown_variables_in text ≡ []
      → check_variables side pool i text ≡ none
  unfolding check_variables
  check_variables_pass side pool i text h = ground (arith, h)

  check_line-none :
      (side : Side) (pool : Pool) (i : ℕ) (text : Text) (weight : ℤ)
      → check_line trim rune_count side pool i text weight ≡ none
      → (check_variables side pool i text ≡ none)
        × (is_too_long trim rune_count side text ≡ false)
        × (weight ≤ℤ pos max_weight)
  unfolding check_line
  check_line-none side pool i text weight h = ground (arith, h)

  pub check_line_pass :
      (side : Side) (pool : Pool) (i : ℕ) (text : Text) (weight : ℤ)
      → check_variables side pool i text ≡ none
      → is_too_long trim rune_count side text ≡ false
      → weight ≤ℤ pos max_weight
      → check_line trim rune_count side pool i text weight ≡ none
  unfolding check_line
  check_line_pass side pool i text weight h k l = ground (arith, h, k, l)

  pub line_IsClean :
      (side : Side) (pool : Pool) (i : ℕ) (m : Message)
      → ((t : Text) → trim (trim t) ≡ trim t)
      → is_empty (trim m.text) ≡ false
      → check_line trim rune_count side pool i (trim m.text) m.weight ≡ none
      → IsClean side (stored trim rune_count (trim m.text) m)
  line_IsClean side pool i m idem full pass =
      let (vars, short, light) = check_line-none side pool i (trim m.text) m.weight pass in
      record {
        renderable = record {
          trimmed = idem m.text;
          not_blank = full;
          declared = check_variables-none side pool i (trim m.text) vars;
          fits = short;
        };
        not_negative = ground arith;
        not_heavy = ground (arith, light);
        unscoped = refl;
      }
