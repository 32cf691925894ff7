-- ===== src/Rotator.antt =====
-- pkg/rotator/rotator.go and vars.go: which line a corner shows. Texts are lists of bytes; a map's
-- missing key reads as the empty text. `rand.Intn(total)` is the argument `draw`, a function of the
-- total whose answer lies below it.
pub mod Tokens
pub mod Fits
pub mod Pick
pub mod Sanitize
mod Tests
use tripbot.Base.Int.{ℤ, pos, negsuc}
use tripbot.Base.{
  Text, same_text, ℕ, ◌+◌, ◌-◌, ◌≤◌, ◌<◌, Bool, true, false, not, ◌&&◌, ◌||◌, List, [], ◌∷◌, ◌++◌,
  ltb, leb, ◌==◌, if◌then◌else◌,
}

abbrev pub is_empty : {A : Type 0} → List A → Bool
is_empty [] = true
is_empty (x ∷ xs) = false

abbrev pub contains : Text → List Text → Bool
contains t [] = false
contains t (u ∷ us) = let rest = contains t us in if same_text t u then true else rest

abbrev pub within : ℕ → ℕ → ℕ → Bool
within lo hi c = leb lo c && leb c hi

-- `\w` of the regular expressions, and the characters that a variable begins and goes on with.
abbrev pub is_word : ℕ → Bool
is_word c = within b'0' b'9' c || within b'A' b'Z' c || within b'a' b'z' c || c == b'_'

abbrev pub is_lower : ℕ → Bool
is_lower c = within b'a' b'z' c

abbrev pub is_name : ℕ → Bool
is_name c = is_lower c || within b'0' b'9' c || c == b'_'

-- A text cut into its tokens: other characters one by one, and each mark with the longest name
-- after it.
pub data Piece : Type 0 where
  plain : ℕ → Piece
  token : Text → Piece

-- Where the scan stands: in other text, right after a mark, or inside a token with its name so far,
-- backwards.
pub data Scan : Type 0 where
  outside : Scan
  marked : Scan
  inside : Text → Scan

abbrev backwards : Text → Text → Text
backwards [] acc = acc
backwards (c ∷ cs) acc = backwards cs (c ∷ acc)

module _ (mark : ℕ) (first rest : ℕ → Bool) where
  -- The leftmost matches of the mark, one `first` and the most `rest`.
  unfoldable pub pieces : Scan → Text → List Piece
  pieces outside [] = []
  pieces marked [] = plain mark ∷ []
  pieces (inside name) [] = token (backwards name []) ∷ []
  pieces outside (c ∷ cs) =
      let go = pieces outside cs in
      let at = pieces marked cs in if c == mark then at else plain c ∷ go
  pieces marked (c ∷ cs) =
      let go = pieces outside cs in
      let at = pieces marked cs in
      let within = pieces (inside (c ∷ [])) cs in
      if first c then within else plain mark ∷ (if c == mark then at else plain c ∷ go)
  pieces (inside name) (c ∷ cs) =
      let go = pieces outside cs in
      let at = pieces marked cs in
      let within = pieces (inside (c ∷ name)) cs in
      if rest c
      then within
      else token (backwards name []) ∷ (if c == mark then at else plain c ∷ go)

abbrev tokens : List Piece → List Text
tokens [] = []
tokens (plain c ∷ ps) = tokens ps
tokens (token t ∷ ps) = t ∷ tokens ps

-- `CommandsIn`, the set as a list.
unfoldable pub commands_in : Text → List Text
commands_in text = tokens (pieces b'!' is_word is_word outside text)

-- `VariablesIn`.
unfoldable pub variables_in : Text → List Text
variables_in text = tokens (pieces b'$' is_lower is_name outside text)

-- `Vars`: the live values by name.
abbrev pub Vars : Type 0
Vars = List (Text × Text)

abbrev pub value : Vars → Text → Text
value [] name = []
value ((n, v) ∷ vars) name = let rest = value vars name in if same_text n name then v else rest

abbrev pub all_known : Vars → List Text → Bool
all_known vars [] = true
all_known vars (n ∷ ns) =
    let rest = all_known vars ns in if is_empty (value vars n) then false else rest

-- `Vars.Resolvable`.
unfoldable pub resolvable : Vars → Text → Bool
resolvable vars text = all_known vars (variables_in text)

abbrev pub substitute : Vars → List Piece → Text
substitute vars [] = []
substitute vars (plain c ∷ ps) = c ∷ substitute vars ps
substitute vars (token n ∷ ps) =
    let rest = substitute vars ps in
    if is_empty (value vars n) then b'$' ∷ n ++ rest else value vars n ++ rest

-- `Vars.Expand`.
unfoldable pub expand : Vars → Text → Text
expand vars text =
    if is_empty vars then text else substitute vars (pieces b'$' is_lower is_name outside text)

pub record Message : Type 0 where
  pub text : Text
  pub platforms : List Text
  pub weight : ℤ

abbrev pub applies_to : Text → Message → Bool
applies_to platform m = is_empty m.platforms || contains platform m.platforms

-- `Weighted`: a weight below 1 counts as 1.
abbrev pub weight_of : ℤ → ℕ
weight_of (pos n) = if ltb n 1 then 1 else n
weight_of (negsuc n) = 1

abbrev pub weighted : Message → ℕ
weighted m = weight_of m.weight

abbrev pub any_in : List Text → List Text → Bool
any_in [] exclude = false
any_in (c ∷ cs) exclude = let rest = any_in cs exclude in if contains c exclude then true else rest

unfoldable pub shares_command : List Text → Message → Bool
shares_command exclude m = if is_empty exclude then false else any_in (commands_in m.text) exclude

unfoldable pub eligible : Text → List Text → Vars → Message → Bool
eligible platform exclude vars m =
    applies_to platform m && not (shares_command exclude m) && resolvable vars m.text

module _ (ok : Message → Bool) where
  -- The first loop of `Pick`.
  unfoldable pub total : List Message → ℕ
  total [] = 0
  total (m ∷ ms) = (if ok m then weighted m else 0) + total ms

  -- The second loop, from `n` on; `[]` when it runs off the end.
  pub choose : (Message → Text) → ℕ → List Message → Text
  choose show n [] = []
  choose show n (m ∷ ms) =
      let next = choose show n ms in
      let after = choose show (n - weighted m) ms in
      if ok m then (if ltb n (weighted m) then show m else after) else next

-- `Pick` without the relaxation.
pub pick_once : (ℕ → ℕ) → Text → List Message → List Text → Vars → Text
pick_once draw platform ms exclude vars =
    let ok = eligible platform exclude vars in
    if total ok ms == 0 then [] else choose ok (λ m. expand vars m.text) (draw (total ok ms)) ms

pub pick : (ℕ → ℕ) → Text → List Message → List Text → Vars → Text
pick draw platform ms exclude vars =
    if total (eligible platform exclude vars) ms == 0
    then (if is_empty exclude then [] else pick_once draw platform ms [] vars)
    else pick_once draw platform ms exclude vars
