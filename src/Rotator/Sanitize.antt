-- ===== src/Rotator/Sanitize.antt =====
-- pkg/rotator/validate.go and fit.go: the check of submitted copy. `trim` and `rune_count` stand for
-- `strings.TrimSpace` and `utf8.RuneCountInString`.
pub mod Lines
pub mod Saved
pub mod Stable
mod Tests
use tripbot.Base.{
  Text, ℕ, ◌+◌, ◌*◌, ◌/◌, Bool, true, false, Option, none, some, List, [], ◌∷◌, length, ltb, leb,
  if◌then◌else◌,
}
use tripbot.Base.Int.{ℤ, pos, negsuc, ltb_ℤ}
use tripbot.Rotator.{
  Vars, Message, is_empty, value, substitute, pieces, outside, is_lower, is_name, variables_in,
}

pub data Side : Type 0 where
  left right : Side

pub data Pool : Type 0 where
  messages promo_messages rare_message : Pool

pub record Corner : Type 0 where
  pub messages : List Message
  pub promo_messages : List Message

pub record Config : Type 0 where
  pub left : Corner
  pub right : Corner
  pub rare_message : Text

-- The reasons that the error's message gives.
pub data Problem : Type 0 where
  unknown_variable : Text → Problem
  too_long : Problem
  over_weight : Problem
  over_full : Problem

pub record ValidationError : Type 0 where
  pub side : Side
  pub pool : Pool
  pub index : ℕ
  pub text : Text
  pub problem : Problem

abbrev complaint : Side → Pool → ℕ → Text → Problem → ValidationError
complaint side pool i text p = record {
  side = side;
  pool = pool;
  index = i;
  text = text;
  problem = p;
}

pub data Result (A : Type 0) : Type 0 where
  ok : A → Result A
  refused : ValidationError → Result A

abbrev pub max_messages_per_pool : ℕ
max_messages_per_pool = 100

abbrev pub max_weight : ℕ
max_weight = 100

abbrev example_location : Text × Text
example_location = (
  b'l' ∷ b'o' ∷ b'c' ∷ b'a' ∷ b't' ∷ b'i' ∷ b'o' ∷ b'n' ∷ [],
  b'G' ∷ b'r' ∷ b'a' ∷ b'n' ∷ b'd' ∷ b' ' ∷ b'J' ∷ b'u' ∷ b'n' ∷ b'c' ∷ b't' ∷ b'i' ∷ b'o' ∷ b'n'
      ∷ b',' ∷ b' ' ∷ b'C' ∷ b'o' ∷ b'l' ∷ b'o' ∷ b'r' ∷ b'a' ∷ b'd' ∷ b'o' ∷ [],
)

abbrev example_state : Text × Text
example_state = (
  b's' ∷ b't' ∷ b'a' ∷ b't' ∷ b'e' ∷ [],
  b'W' ∷ b'e' ∷ b's' ∷ b't' ∷ b' ' ∷ b'V' ∷ b'i' ∷ b'r' ∷ b'g' ∷ b'i' ∷ b'n' ∷ b'i' ∷ b'a' ∷ [],
)

abbrev example_date : Text × Text
example_date = (
  b'd' ∷ b'a' ∷ b't' ∷ b'e' ∷ [],
  b'S' ∷ b'e' ∷ b'p' ∷ b't' ∷ b'e' ∷ b'm' ∷ b'b' ∷ b'e' ∷ b'r' ∷ b' ' ∷ b'2' ∷ b'6' ∷ b',' ∷ b' '
      ∷ b'2' ∷ b'0' ∷ b'1' ∷ b'8' ∷ [],
)

abbrev example_weather : Text × Text
example_weather = (
  b'w' ∷ b'e' ∷ b'a' ∷ b't' ∷ b'h' ∷ b'e' ∷ b'r' ∷ [],
  b'T' ∷ b'h' ∷ b'u' ∷ b'n' ∷ b'd' ∷ b'e' ∷ b'r' ∷ b's' ∷ b't' ∷ b'o' ∷ b'r' ∷ b'm' ∷ b' ' ∷ b'w'
      ∷ b'i' ∷ b't' ∷ b'h' ∷ b' ' ∷ b'h' ∷ b'a' ∷ b'i' ∷ b'l' ∷ b',' ∷ b' ' ∷ b'1' ∷ b'0' ∷ b'2'
      ∷ 194 ∷ 176 ∷ b'F' ∷ [],
)

abbrev example_sunset : Text × Text
example_sunset = (
  b's' ∷ b'u' ∷ b'n' ∷ b's' ∷ b'e' ∷ b't' ∷ [],
  b'1' ∷ b'0' ∷ b':' ∷ b'4' ∷ b'2' ∷ b' ' ∷ b'P' ∷ b'M' ∷ [],
)

-- The declared variables, with the examples that stand in for them.
abbrev pub variables : Vars
variables = example_location ∷ example_state ∷ example_date ∷ example_weather ∷ example_sunset ∷ []

-- `UnknownVariablesIn`.
abbrev unknown_of : List Text → List Text
unknown_of [] = []
unknown_of (n ∷ ns) =
    let rest = unknown_of ns in if is_empty (value variables n) then n ∷ rest else rest

pub unknown_variables_in : Text → List Text
unknown_variables_in text = unknown_of (variables_in text)

-- `ExpandExamples`.
pub expand_examples : Text → Text
expand_examples text = substitute variables (pieces b'$' is_lower is_name outside text)

-- The corners' widths in pixels, at a least font size of 18.
abbrev fit_width : Side → ℕ
fit_width left = 564
fit_width right = 369

-- `EstimatedMaxRunes` at half the font size to a character, and `HardMaxRunes`.
abbrev pub hard_max_runes : Side → ℕ
hard_max_runes side = 3 * (2 * fit_width side / 18)

-- `checkVariables`.
pub check_variables : Side → Pool → ℕ → Text → Option ValidationError
check_variables side pool i text = elim (unknown_variables_in text) [
  | [] ↦ none
  | n ∷ ns ↦ some (complaint side pool i text (unknown_variable n))
]

module _ (trim : Text → Text) (rune_count : Text → ℕ) where
  pub is_too_long : Side → Text → Bool
  is_too_long side text = ltb (hard_max_runes side) (rune_count (expand_examples text))

  -- One trimmed line that is not blank.
  pub check_line : Side → Pool → ℕ → Text → ℤ → Option ValidationError
  check_line side pool i text weight = elim (check_variables side pool i text) [
    | some e ↦ some e
    | none ↦
        if is_too_long side text
        then some (complaint side pool i text too_long)
        else (if ltb_ℤ (pos max_weight) weight
            then some (complaint side pool i text over_weight)
            else none)
  ]

  -- The line as it is stored.
  abbrev pub stored : Text → Message → Message
  stored text m = record {
    text = text;
    platforms = [];
    weight = if ltb_ℤ m.weight (pos 0) then pos 0 else m.weight;
  }

  abbrev cons_to : Message → Result (List Message) → Result (List Message)
  cons_to m (ok ms) = ok (m ∷ ms)
  cons_to m (refused e) = refused e

  -- The loop of `sanitizePool`, at index `i`.
  pub clean : Side → Pool → ℕ → List Message → Result (List Message)
  clean side pool i [] = ok []
  clean side pool i (m ∷ ms) =
      let rest = clean side pool (i + 1) ms in
      let text = trim m.text in
      if is_empty text then rest else (elim (check_line side pool i text m.weight) [
        | some e ↦ refused e
        | none ↦ cons_to (stored text m) rest
      ])

  abbrev bounded : Side → Pool → Result (List Message) → Result (List Message)
  bounded side pool (refused e) = refused e
  bounded side pool (ok ms) =
      if ltb max_messages_per_pool (length ms)
      then refused (record { side = side; pool = pool; index = 0; text = []; problem = over_full })
      else ok ms

  pub sanitize_pool : Side → Pool → List Message → Result (List Message)
  sanitize_pool side pool ms = bounded side pool (clean side pool 0 ms)

  pub sanitize_corner : Side → Corner → Result Corner
  sanitize_corner side c = elim (sanitize_pool side messages c.messages) [
    | refused e ↦ refused e
    | ok ms ↦ elim (sanitize_pool side promo_messages c.promo_messages) [
      | refused e ↦ refused e
      | ok ps ↦ ok (record { messages = ms; promo_messages = ps })
    ]
  ]

  -- The rare line, which answers to the left corner.
  pub sanitize_rare : Text → Result Text
  sanitize_rare text =
      let rare = trim text in
      if is_empty rare then ok rare else (elim (check_variables left rare_message 0 rare) [
        | some e ↦ refused e
        | none ↦
            if is_too_long left rare
            then refused (record {
              side = left;
              pool = rare_message;
              index = 0;
              text = rare;
              problem = too_long;
            })
            else ok rare
      ])

  pub sanitize : Config → Result Config
  sanitize cfg = elim (sanitize_corner left cfg.left) [
    | refused e ↦ refused e
    | ok l ↦ elim (sanitize_corner right cfg.right) [
      | refused e ↦ refused e
      | ok r ↦ elim (sanitize_rare cfg.rare_message) [
        | refused e ↦ refused e
        | ok rare ↦ ok (record { left = l; right = r; rare_message = rare })
      ]
    ]
  ]
