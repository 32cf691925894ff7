-- ===== src/Playback/Seeks.antt =====
-- !skip and !back: the span that is parsed, and the one that playout is given.
use tripbot.Base.{
  ◌≡◌, subst, ◌⊎◌, refl, inl, inr, ◌-◌, ◌^◌, false, ◌||◌, Option, some, List, [], ◌∷◌, arith,
  Bool-cases, Option-cases, Text,
}
use tripbot.Base.Int.{ℤ, pos, negsuc, ◌≤ℤ◌, ◌-ℤ◌, eq_of_parts, ltb_ℤ}
use tripbot.Playback.{span, forwards, back, directed, negated, is_min, int64_min}
use tripbot.Playback.Input.{minute, max_minutes, scale, parse_seek_span, read_span, glue}

-- The value fits an int64.
abbrev pub InInt64 : ℤ → Type 0
InInt64 x = (int64_min ≤ℤ x) × (x ≤ℤ pos (2 ^ 63 - 1))

scale-InInt64 :
    (n : ℤ)
    → ltb_ℤ (pos max_minutes) n ≡ false
    → ltb_ℤ n (negsuc (max_minutes - 1)) ≡ false
    → InInt64 (scale minute n)
scale-InInt64 (pos n) few more = ground (arith, few)
scale-InInt64 (negsuc n) few more = ground (arith, more)

negated-InInt64 : (x : ℤ) → InInt64 x → InInt64 (negated x)
unfolding negated ◌-ℤ◌
negated-InInt64 (pos n) h = ground (arith, h.0, h.1)
negated-InInt64 (negsuc n) h = ground (arith, h.0, h.1)

parse_seek_span-InInt64 :
    (to_lower : Text → Text) (atoi parse_duration : Text → Option ℤ) (arg : Text) (x : ℤ)
    → ((t : Text) (d : ℤ) → parse_duration t ≡ some d → InInt64 d)
    → parse_seek_span to_lower atoi parse_duration arg ≡ some x
    → InInt64 x
unfolding parse_seek_span
parse_seek_span-InInt64 to_lower atoi parse_duration arg x fits h =
    elim (Option-cases (atoi (to_lower arg))) [
      | inl word ↦ fits (to_lower arg) x (ground (arith, h, word))
      | inr (n, number) ↦
          elim (Bool-cases (ltb_ℤ (pos max_minutes) n || ltb_ℤ n (negsuc (max_minutes - 1)))) [
            | inl over ↦ absurd (ground (arith, h, number, over))
            | inr within ↦
                let is : scale minute n ≡ x = ground (arith, h, number, within) in
                subst InInt64 is (scale-InInt64 n (ground (arith, within)) (ground (arith, within)))
          ]
    ]

-- The span of a !skip or !back fits an int64, and so does the one that !back gives playout, which is
-- the opposite: but for the least int64, whose opposite does not fit, and which !back therefore seeks
-- by in the same direction as !skip. time.ParseDuration answers within int64.
pub read_span-InInt64 :
    (to_lower : Text → Text) (atoi parse_duration : Text → Option ℤ) (params : List Text) (x : ℤ)
    → ((t : Text) (d : ℤ) → parse_duration t ≡ some d → InInt64 d)
    → read_span to_lower atoi parse_duration params ≡ span x
    → InInt64 x
      × InInt64 (directed back x)
      × (((x ≡ int64_min) × (directed back x ≡ directed forwards x))
          ⊎ (directed back x ≡ pos 0 -ℤ x))
unfolding read_span negated
read_span-InInt64 to_lower atoi parse_duration [] x fits h = absurd (ground (arith, h))
read_span-InInt64 to_lower atoi parse_duration (p ∷ ps) x fits h =
    let parsed = parse_seek_span to_lower atoi parse_duration (glue (p ∷ ps)) in
    let parses : parsed ≡ some x = ground (arith, h, Option-cases parsed) in
    let fits' =
      parse_seek_span-InInt64 to_lower atoi parse_duration (glue (p ∷ ps)) x fits parses in
    (
      fits',
      negated-InInt64 x fits',
      elim (Bool-cases (is_min x)) [
        | inl least ↦ inl (eq_of_parts x int64_min (ground (arith, least, fits'.0)), rw least refl)
        | inr other ↦ inr (rw other refl)
      ],
    )
