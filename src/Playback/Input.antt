-- ===== src/Playback/Input.antt =====
-- playback.go and pkg/helpers/states.go: how the params of !jump, !skip and !back are read.
-- strconv.Atoi, time.ParseDuration and strings.ToLower of any text are arguments, and so is the table
-- of states: the lower-case names and the upper-case abbreviations.
use tripbot.Base.{
  ℕ, ◌+◌, ◌-◌, ◌*◌, Bool, ◌&&◌, ◌||◌, Option, none, some, List, [], ◌∷◌, ◌++◌, ◌==◌, leb, ltb, map,
  length, if◌then◌else◌, Text, same_text, mem_text,
}
use tripbot.Base.Int.{ℤ, pos, negsuc, ltb_ℤ}
use tripbot.Playback.{
  Place, no_params, unusable, unknown_state, state, Span, no_span, bad_span, span,
}

-- `\s` of the regular expressions.
abbrev pub is_space : ℕ → Bool
is_space c = c == 32 || c == 9 || c == 10 || c == 12 || c == 13

abbrev pub is_letter : ℕ → Bool
is_letter c = (leb b'a' c && leb c b'z') || (leb b'A' c && leb c b'Z')

-- What `nonStateNameChars` leaves.
unfoldable pub state_chars : Text → Text
state_chars [] = []
state_chars (c ∷ s) =
    let rest = state_chars s in if is_letter c || is_space c then c ∷ rest else rest

abbrev pub onto_word : Text → List Text → List Text
onto_word [] ws = ws
onto_word (c ∷ w) ws = (c ∷ w) ∷ ws

-- `strings.Fields`, with the word so far.
unfoldable pub fields : Text → Text → List Text
fields w [] = onto_word w []
fields w (c ∷ s) =
    let next = fields [] s in
    let same = fields (w ++ c ∷ []) s in if is_space c then onto_word w next else same

unfoldable pub join : List Text → Text
join [] = []
join (w ∷ []) = w
join (w ∷ v ∷ ws) = w ++ 32 ∷ join (v ∷ ws)

-- `NormalizeStateInput`.
unfoldable pub normalize_state_input : Text → Text
unfolding state_chars fields join
normalize_state_input s = join (fields [] (state_chars s))

abbrev lower : ℕ → ℕ
lower c = if leb b'A' c && leb c b'Z' then c + 32 else c

abbrev upper : ℕ → ℕ
upper c = if leb b'a' c && leb c b'z' then c - 32 else c

-- The params of !jump.
unfoldable pub read_place : (names abbrevs : List Text) → List Text → Place
unfolding normalize_state_input
read_place names abbrevs [] = no_params
read_place names abbrevs (p ∷ ps) =
    let s = normalize_state_input (join (p ∷ ps)) in
    if same_text s [] || ltb 4 (length (fields [] s))
    then unusable
    else (if mem_text (map upper s) abbrevs || mem_text (map lower s) names
        then state
        else unknown_state)

-- A minute in nanoseconds, and the most minutes that an int64 of nanoseconds holds.
abbrev pub minute : ℕ
minute = 60000000000

abbrev pub max_minutes : ℕ
max_minutes = 153722867

abbrev pub scale : ℕ → ℤ → ℤ
scale k (pos n) = pos (k * n)
scale k (negsuc n) = negsuc (k * (n + 1) - 1)

-- `parseSeekSpan`.
unfoldable pub parse_seek_span :
    (to_lower : Text → Text) (atoi parse_duration : Text → Option ℤ) → Text → Option ℤ
parse_seek_span to_lower atoi parse_duration arg = elim (atoi (to_lower arg)) [
  | none ↦ parse_duration (to_lower arg)
  | some n ↦
      if ltb_ℤ (pos max_minutes) n || ltb_ℤ n (negsuc (max_minutes - 1))
      then none
      else some (scale minute n)
]

abbrev pub glue : List Text → Text
glue [] = []
glue (p ∷ ps) = p ++ glue ps

abbrev pub span_of : Option ℤ → Span
span_of none = bad_span
span_of (some x) = span x

-- The params of !skip and !back.
unfoldable pub read_span :
    (to_lower : Text → Text) (atoi parse_duration : Text → Option ℤ) → List Text → Span
unfolding parse_seek_span
read_span to_lower atoi parse_duration [] = no_span
read_span to_lower atoi parse_duration (p ∷ ps) =
    span_of (parse_seek_span to_lower atoi parse_duration (glue (p ∷ ps)))
