-- ===== src/Dispatch/Lookup.antt =====
-- handlers.go: findCommand, the command that a message asks for, with the token as typed and the
-- params. The maps are read in the order of their index, and the state names are the lower-case
-- names of the table in pkg/helpers/states.go.
use tripbot.Base.{
  ℕ, zero, suc, Bool, not, ◌&&◌, ◌||◌, Option, none, some, List, [], ◌∷◌, ◌++◌, ◌==◌, ltb, leb,
  length, Text, codes, same_text, mem_text, has_prefix, trim_prefix, split, if◌then◌else◌,
}
use tripbot.Fuzzy.{fuzzy_lookup}
use tripbot.Dispatch.Registry.{Index, Lookups, lookup}

-- The standard library's functions on text, and the table of states.
pub record Words : Type 0 where
  pub trim : Text → Text
  pub to_lower : Text → Text
  pub equal_fold : Text → Text → Bool
  pub is_letter : ℕ → Bool
  pub states : List Text

-- What `findCommand` answers.
abbrev pub Found : Type 0
Found = Option (ℕ × Text × List Text)

-- A `1` before a letter stands for a bang.
abbrev unshifted : (ℕ → Bool) → Text → Text
unshifted is_letter [] = []
unshifted is_letter (c ∷ []) = c ∷ []
unshifted is_letter (c ∷ r ∷ rest) =
    if c == b'1' && is_letter r then b'!' ∷ r ∷ rest else c ∷ r ∷ rest

-- The inverted exclamation mark has the code 161.
abbrev inverted : ℕ → Bool
inverted c = c == 161

unfoldable pub normalize_command_prefix : (ℕ → Bool) → Text → Text
normalize_command_prefix is_letter [] = []
normalize_command_prefix is_letter (c ∷ s) =
    if inverted c then b'!' ∷ s else unshifted is_letter (c ∷ s)

abbrev pub head : List Text → Text
head [] = []
head (w ∷ ws) = w

abbrev pub rest_of : List Text → List Text
rest_of [] = []
rest_of (w ∷ ws) = ws

-- `strings.Join` with a space.
abbrev pub join : List Text → Text
join [] = []
join (w ∷ []) = w
join (w ∷ v ∷ ws) = w ++ codes " " ++ join (v ∷ ws)

-- The rune that some clients add to a repeated message.
abbrev tag_rune : Text
tag_rune = 917504 ∷ []

abbrev pub drop_tag : List Text → List Text
drop_tag [] = []
drop_tag (w ∷ []) = if same_text w tag_rune then [] else w ∷ []
drop_tag (w ∷ v ∷ ws) = w ∷ drop_tag (v ∷ ws)

-- The command and the params, where a bang may stand apart from its word.
abbrev pub spaced : (Text → Text) → Text → List Text → Text × List Text
spaced to_lower command [] = (command, [])
spaced to_lower command (p ∷ ps) =
    if same_text command (codes "!") then (command ++ to_lower p, ps) else (command, p ∷ ps)

unfoldable pub parse : Words → List Text → Text × List Text
parse ws words = spaced ws.to_lower (ws.to_lower (head words)) (drop_tag (rest_of words))

abbrev pub take : ℕ → List Text → List Text
take zero ws = []
take (suc n) [] = []
take (suc n) (w ∷ ws) = w ∷ take n ws

abbrev pub drop : ℕ → List Text → List Text
drop zero ws = ws
drop (suc n) [] = []
drop (suc n) (w ∷ ws) = drop n ws

-- The loop over the aliases of several words.
unfoldable pub find_multi : (Text → Text → Bool) → List Text → Index → Found
find_multi equal_fold words [] = none
find_multi equal_fold words ((alias, i) ∷ m) =
    let later = find_multi equal_fold words m in
    let n = length (split b' ' alias) in
    if ltb (length words) n || not (equal_fold (join (take n words)) alias)
    then later
    else some (i, alias, drop n words)

abbrev pub is_bare_word : Text → Bool
is_bare_word command = same_text command (codes "commands") || same_text command (codes "help")

abbrev pub is_state : Words → Text → Bool
is_state ws name = mem_text (ws.to_lower name) ws.states

-- `stateGuessParams`: the words of a state's name, and no words for none.
unfoldable pub state_guess_params : Words → Text → List Text → List Text
state_guess_params ws command params =
    let name = trim_prefix (codes "!") command in
    let phrase = name ++ codes " " ++ join params in
    if same_text name []
    then []
    else (if ltb 0 (length params) && is_state ws phrase
        then split b' ' phrase
        else (if is_state ws name then name ∷ [] else []))

-- The longest trigger so far that the command goes on from.
unfoldable pub longest : Text → Index → Option ℕ → ℕ → Option (ℕ × ℕ)
longest command [] none len = none
longest command [] (some i) len = some (i, len)
longest command ((trigger, i) ∷ m) best len =
    let skip = longest command m best len in
    let better = longest command m (some i) (length trigger) in
    if not (has_prefix (codes "!") trigger)
      || leb (length trigger) len
      || leb (length command) (length trigger)
    then skip
    else (if has_prefix trigger command then better else skip)

abbrev drop_runes : ℕ → Text → Text
drop_runes zero s = s
drop_runes (suc n) [] = []
drop_runes (suc n) (c ∷ s) = drop_runes n s

abbrev pub glued : Text → Option (ℕ × ℕ) → Option (ℕ × Text)
glued command none = none
glued command (some (i, len)) = some (i, drop_runes len command)

unfoldable pub split_spaceless : Text → Index → Option (ℕ × Text)
unfolding longest
split_spaceless command m = glued command (longest command m none 0)

abbrev pub or_else : Found → Found → Found
or_else none later = later
or_else (some f) later = some f

abbrev pub with_words : Text → List Text → Option ℕ → Found
with_words typed params none = none
with_words typed params (some i) = some (i, typed, params)

abbrev pub bare : Lookups → Text → List Text → Found
bare ls command params =
    if length params == 0 && is_bare_word command
    then with_words (codes "!" ++ command) [] (lookup (codes "!" ++ command) ls.single)
    else none

abbrev pub by_state : Words → Lookups → Text → List Text → Found
by_state ws ls command params =
    let words = state_guess_params ws command params in
    if length words == 0
    then none
    else with_words (codes "!" ++ ws.to_lower (join words)) words
        (lookup (codes "!guess") ls.single)

abbrev pub by_split : Words → Text → List Text → Option (ℕ × Text) → Found
by_split ws command params none = none
by_split ws command params (some (i, rest)) =
    if length (state_guess_params ws (codes "!" ++ rest) params) == 0
    then none
    else some (i, command, rest ∷ params)

-- The fallbacks for a word with a bang: a state, a misspelling, a name with its param glued on.
abbrev pub banged : Words → Lookups → Text → List Text → Found
banged ws ls command params =
    if has_prefix (codes "!") command
    then or_else (by_state ws ls command params) (
        or_else (with_words command params (fuzzy_lookup ls.single command))
          (by_split ws command params (split_spaceless command ls.single)))
    else none

abbrev pub words_of : Words → Text → List Text
words_of ws message = split b' ' (normalize_command_prefix ws.is_letter (ws.trim message))

unfoldable pub find_command : Words → Lookups → Text → Found
unfolding parse find_multi state_guess_params split_spaceless lookup
find_command ws ls message =
    let words = words_of ws message in
    let (command, params) = parse ws words in
    or_else (find_multi ws.equal_fold words ls.multi) (
      or_else (with_words command params (lookup command ls.single))
        (or_else (bare ls command params) (banged ws ls command params)))
