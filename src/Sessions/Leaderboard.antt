-- ===== src/Sessions/Leaderboard.antt =====
-- pkg/users/leaderboard.go: the board of lifetime miles. The rows that the query of fetchLeaderboard
-- answers, in its order, are an argument, or none when it fails. Usernames are numbers and miles signed
-- integers, as in Sessions; UserIsAdmin and the formatting of miles are arguments.
pub mod Rank
pub mod Ranked
mod Tests
use tripbot.Base.{Bool, Option, none, some, List, [], ◌∷◌, if◌then◌else◌, map, Text}
use tripbot.Base.Int.{ℤ, ltb_ℤ}
use tripbot.Base.Maps.{find}
use tripbot.Sessions.{Name, World, Env, current_miles}

-- A username and its miles, as stored or as overlaid.
abbrev pub Entry : Type 0
Entry = Name × ℤ

pub record Format : Type 0 where
  pub is_admin : Name → Bool
  pub miles_text : ℤ → Text

-- The miles of a viewer who is logged in are those of their session's entry.
unfoldable pub overlay : Env → World → Entry → Entry
overlay env w (name, miles) = elim (find name w.logged_in) [
  | none ↦ (name, miles)
  | some live ↦ (name, current_miles env w live)
]

-- Before the first entry that does not have more miles.
unfoldable pub insert : Entry → List Entry → List Entry
insert e [] = e ∷ []
insert e (f ∷ fs) = let rest = insert e fs in if ltb_ℤ e.1 f.1 then f ∷ rest else e ∷ f ∷ fs

-- `sort.SliceStable` by descending miles.
unfoldable pub rank : List Entry → List Entry
rank [] = []
rank (e ∷ es) = insert e (rank es)

unfoldable pub to_pairs : Format → List Entry → List (Name × Text)
to_pairs c [] = []
to_pairs c ((name, miles) ∷ es) =
    let rest = to_pairs c es in if c.is_admin name then rest else (name, c.miles_text miles) ∷ rest

-- `InitLeaderboard`: a failed query gives an empty board.
unfoldable pub init_leaderboard : Format → Option (List Entry) → List (Name × Text)
init_leaderboard c none = []
init_leaderboard c (some es) = to_pairs c es

-- `UpdateLeaderboard`, from the board that it replaces.
unfoldable pub update_leaderboard :
    Format → Env → World → Option (List Entry) → List (Name × Text) → List (Name × Text)
update_leaderboard c env w none board = board
update_leaderboard c env w (some es) board = to_pairs c (rank (map (overlay env w) es))
