-- ===== src/Rotator/Sanitize/Tests.antt =====
-- The check on concrete copy, and the theorems at it.
use tripbot.Base.{Text, ◌≡◌, refl, [], ◌∷◌, length, arith, ◌==◌, if◌then◌else◌}
use tripbot.Base.Int.{pos, negsuc}
use tripbot.Rotator.{Message, variables_in, pieces}
use tripbot.Rotator.Sanitize.{
  Corner, Config, ok, sanitize, sanitize_corner, sanitize_pool, sanitize_rare, clean, check_line,
  check_variables, is_too_long, unknown_variables_in, expand_examples,
}
use tripbot.Rotator.Sanitize.Lines.{IsSaved}
use tripbot.Rotator.Sanitize.Saved.{sanitize-IsSaved}

-- Trimming on the left stands for all of it.
abbrev trim_left : Text → Text
trim_left [] = []
trim_left (c ∷ cs) = let rest = trim_left cs in if c == b' ' then rest else c ∷ cs

trim_left_twice : (t : Text) → trim_left (trim_left t) ≡ trim_left t
trim_left_twice [] = refl
trim_left_twice (c ∷ cs) = ground (arith, trim_left_twice cs)

-- " at $state", at a negative weight, for one platform.
abbrev submitted_line : Message
submitted_line = record {
  text = b' ' ∷ b'a' ∷ b't' ∷ b' ' ∷ b'$' ∷ b's' ∷ b't' ∷ b'a' ∷ b't' ∷ b'e' ∷ [];
  platforms = (b'x' ∷ []) ∷ [];
  weight = negsuc 4;
}

abbrev saved_line : Message
saved_line = record {
  text = b'a' ∷ b't' ∷ b' ' ∷ b'$' ∷ b's' ∷ b't' ∷ b'a' ∷ b't' ∷ b'e' ∷ [];
  platforms = [];
  weight = pos 0;
}

abbrev no_lines : Corner
no_lines = record { messages = []; promo_messages = [] }

abbrev submitted : Config
submitted = record {
  left = record { messages = submitted_line ∷ []; promo_messages = [] };
  right = no_lines;
  rare_message = b' ' ∷ [];
}

abbrev saved : Config
saved = record {
  left = record { messages = saved_line ∷ []; promo_messages = [] };
  right = no_lines;
  rare_message = [];
}

passes : sanitize trim_left length submitted ≡ ok saved
unfolding sanitize sanitize_corner sanitize_pool sanitize_rare clean check_line check_variables
    is_too_long unknown_variables_in expand_examples variables_in pieces
passes = refl

sanitize-IsSaved_example : IsSaved trim_left length saved
sanitize-IsSaved_example = sanitize-IsSaved trim_left length submitted saved trim_left_twice passes
