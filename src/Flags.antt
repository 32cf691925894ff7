-- ===== src/Flags.antt =====
-- pkg/feature/feature.go and postgres.go: the feature flags of a platform. The database is a
-- parameter, `select` and `update`, each with `none` for an error; its state is a `D`, which others
-- write too, so each poll and each toggle comes with the state that it finds. Times are numbers.
pub mod Served
pub mod Toggle
pub mod Listing
mod Tests
use tripbot.Base.{
  Text, same_text, mem_text, ℕ, Bool, true, false, not, ◌&&◌, ◌||◌, Option, none, some, List, [],
  ◌∷◌, ◌==◌, ltb, if◌then◌else◌,
}

pub record EvalContext : Type 0 where
  pub username : Text
  pub roles : List Text
  pub channel : Text
  pub env : Text

pub record Flag : Type 0 where
  pub key : Text
  pub description : Text
  pub enabled : Bool
  pub enabled_for_usernames : List Text
  pub enabled_for_roles : List Text
  pub target_removal_date : ℕ

-- The two nested loops over the roles.
abbrev pub shares : List Text → List Text → Bool
shares [] have = false
shares (want ∷ wants) have =
    let rest = shares wants have in if mem_text want have then true else rest

abbrev pub is_blank : Text → Bool
is_blank [] = true
is_blank (c ∷ cs) = false

pub evaluate : Flag → EvalContext → Bool
evaluate f ctx =
    if not (is_blank ctx.username) && mem_text ctx.username f.enabled_for_usernames
    then true
    else (if shares f.enabled_for_roles ctx.roles then true else f.enabled)

pub record FlagRow : Type 0 where
  pub key : Text
  pub platform : Text
  pub description : Text
  pub enabled : Bool
  pub enabled_for_usernames : List Text
  pub enabled_for_roles : List Text
  pub target_removal_date : ℕ
  pub created_at : ℕ
  pub updated_at : ℕ

abbrev pub to_flag : FlagRow → Flag
to_flag r = record {
  key = r.key;
  description = r.description;
  enabled = r.enabled;
  enabled_for_usernames = r.enabled_for_usernames;
  enabled_for_roles = r.enabled_for_roles;
  target_removal_date = r.target_removal_date;
}

-- `map[string]Flag`.
abbrev pub FlagMap : Type 0
FlagMap = List (Text × Flag)

pub lookup : Text → FlagMap → Option Flag
lookup k [] = none
lookup k ((j, f) ∷ m) = let rest = lookup k m in if same_text j k then some f else rest

-- `m[k] = f`.
pub store : Text → Flag → FlagMap → FlagMap
store k f [] = (k, f) ∷ []
store k f ((j, g) ∷ m) =
    let rest = store k f m in if same_text j k then (k, f) ∷ m else (j, g) ∷ rest

-- The loop of `LoadAll`.
pub fill : FlagMap → List FlagRow → FlagMap
fill out [] = out
fill out (r ∷ rs) = fill (store r.key (to_flag r) out) rs

pub record PostgresClient : Type 0 where
  pub platform : Text
  pub flags : FlagMap

-- `Bool` of both clients.
pub bool : FlagMap → Text → EvalContext → Bool
bool flags key ctx = elim (lookup key flags) [ none ↦ false | some f ↦ evaluate f ctx ]

-- What `SetEnabled` of the repository returns.
pub data ToggleError : Type 0 where
  not_found : Text → ToggleError
  db_error : ToggleError

-- By the rows that were affected.
abbrev pub toggle_result : Text → Option ℕ → Option ToggleError
toggle_result key none = some db_error
toggle_result key (some affected) = if affected == 0 then some (not_found key) else none

-- A tick of the refresh loop, or a toggle from the admin panel.
pub data Event (D : Type 0) : Type 0 where
  polled : D → Event D
  toggled : Text → Bool → D → Event D

module _ {D : Type 0} (select : Text → D → Option (List FlagRow))
    (update : Text → Text → Bool → D → D × Option ℕ) where
  pub load_all : Text → D → Option FlagMap
  load_all platform d = elim (select platform d) [ none ↦ none | some rows ↦ some (fill [] rows) ]

  -- `refresh`; the flag tells whether it was served.
  pub refresh : D → PostgresClient → PostgresClient × Bool
  refresh d c = elim (load_all c.platform d) [
    | none ↦ (c, false)
    | some next ↦ (record c { flags = next }, true)
  ]

  -- `NewPostgresClient`.
  pub new_client : Text → D → Option PostgresClient
  new_client platform d =
      let r = refresh d (record { platform = platform; flags = [] }) in
      if r.1 then some r.0 else none

  -- `SetEnabled` of the repository, with the state that it leaves.
  pub repo_set_enabled : Text → Text → Bool → D → D × Option ToggleError
  repo_set_enabled platform key on d =
      let r = update platform key on d in (r.0, toggle_result key r.1)

  -- `SetEnabled` of the client, from the repository's result on.
  pub load_toggled : Option ToggleError → D → PostgresClient → PostgresClient
  load_toggled (some e) d c = c
  load_toggled none d c = (refresh d c).0

  pub set_enabled : Text → Bool → D → PostgresClient → (D × PostgresClient) × Option ToggleError
  set_enabled key on d c =
      let r = repo_set_enabled c.platform key on d in ((r.0, load_toggled r.1 r.0 c), r.1)

  pub step : PostgresClient → Event D → PostgresClient
  step c (polled d) = (refresh d c).0
  step c (toggled key on d) = (set_enabled key on d c).0.1

  pub run : PostgresClient → List (Event D) → PostgresClient
  run c [] = c
  run c (e ∷ es) = run (step c e) es

-- `Snapshot`'s loop, over the map in the order of the walk.
abbrev pub values : FlagMap → List Flag
values [] = []
values ((k, f) ∷ m) = f ∷ values m

-- `<` on strings.
abbrev pub less : Text → Text → Bool
less [] [] = false
less [] (y ∷ ys) = true
less (x ∷ xs) [] = false
less (x ∷ xs) (y ∷ ys) = let rest = less xs ys in if x == y then rest else ltb x y

-- `sort.Slice` by key. It is not stable, but keys of a map are not repeated.
pub insert_flag : Flag → List Flag → List Flag
insert_flag f [] = f ∷ []
insert_flag f (g ∷ gs) =
    let rest = insert_flag f gs in if less g.key f.key then g ∷ rest else f ∷ g ∷ gs

pub sort_flags : List Flag → List Flag
sort_flags [] = []
sort_flags (f ∷ fs) = insert_flag f (sort_flags fs)

-- `Snapshot`, by the order in which it walks the map.
pub snapshot : FlagMap → List Flag
snapshot walk = sort_flags (values walk)
