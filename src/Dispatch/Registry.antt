-- ===== src/Dispatch/Registry.antt =====
-- registry.go: which commands a platform runs, and the index of their triggers and aliases. The
-- handlers are left out: a command is what the dispatch reads of it.
use tripbot.Base.{
  ℕ, zero, suc, Bool, true, false, Option, none, some, List, [], ◌∷◌, ◌==◌, Text, codes, same_text,
  mem_text, if◌then◌else◌,
}

pub record Command : Type 0 where
  pub trigger : Text
  pub aliases : List Text
  pub requires_follow : Bool
  pub requires_subscriber : Bool
  pub requires_admin : Bool
  pub requires_mod : Bool
  pub admin_denied : Text

-- The platforms that the source names, and any other.
pub data Platform : Type 0 where
  twitch youtube facebook instagram tiktok unknown : Platform

pub data CommandScope : Type 0 where
  scope_v1 scope_full : CommandScope

-- `platformCommandScope` and `platformHasSubscribers`.
unfoldable pub command_scope : Platform → CommandScope
command_scope twitch = scope_full
command_scope youtube = scope_v1
command_scope facebook = scope_v1
command_scope instagram = scope_v1
command_scope tiktok = scope_v1
command_scope unknown = scope_v1

unfoldable pub has_subscribers : Platform → Bool
has_subscribers twitch = true
has_subscribers youtube = false
has_subscribers facebook = false
has_subscribers instagram = false
has_subscribers tiktok = false
has_subscribers unknown = false

abbrev pub v1_commands : List Text
v1_commands =
    codes "!version"
    ∷ codes "!uptime"
    ∷ codes "!commands"
    ∷ codes "!gas"
    ∷ codes "!report"
    ∷ codes "!favorite"
    ∷ codes "!trim"
    ∷ codes "!song"
    ∷ codes "!audio"
    ∷ codes "!weather"
    ∷ codes "!time"
    ∷ codes "!date"
    ∷ codes "!sunset"
    ∷ codes "!state"
    ∷ codes "!location"
    ∷ codes "!direction"
    ∷ codes "!speed"
    ∷ codes "!timewarp"
    ∷ codes "!jump"
    ∷ codes "!skip"
    ∷ codes "!back"
    ∷ codes "!daytime"
    ∷ codes "!find"
    ∷ codes "!socialmedia"
    ∷ codes "!discord"
    ∷ codes "!twitter"
    ∷ codes "!instagram"
    ∷ codes "!facebook"
    ∷ codes "!youtube"
    ∷ codes "!tiktok"
    ∷ codes "!bluesky"
    ∷ []

abbrev in_scope : CommandScope → Text → Bool
in_scope scope_full trigger = true
in_scope scope_v1 trigger = mem_text trigger v1_commands

unfoldable pub command_enabled : Platform → Command → Bool
unfolding command_scope
command_enabled p cmd = in_scope (command_scope p) cmd.trigger

-- `singleWordLookup` and `multiWordLookup`: names with the place of their command.
abbrev pub Index : Type 0
Index = List (Text × ℕ)

pub record Lookups : Type 0 where
  pub single : Index
  pub multi : Index

unfoldable pub lookup : Text → Index → Option ℕ
lookup k [] = none
lookup k ((j, v) ∷ m) = let rest = lookup k m in if same_text j k then some v else rest

-- `m[k] = v`.
unfoldable pub assign : Text → ℕ → Index → Index
assign k v [] = (k, v) ∷ []
assign k v ((j, w) ∷ m) =
    let rest = assign k v m in if same_text j k then (k, v) ∷ m else (j, w) ∷ rest

abbrev pub has_space : Text → Bool
has_space [] = false
has_space (c ∷ s) = let rest = has_space s in if c == b' ' then true else rest

unfoldable pub register_trigger : Text → ℕ → Lookups → Lookups
unfolding assign
register_trigger trigger i ls =
    if has_space trigger
    then record ls { multi = assign trigger i ls.multi }
    else record ls { single = assign trigger i ls.single }

unfoldable pub register_all : List Text → ℕ → Lookups → Lookups
register_all [] i ls = ls
register_all (t ∷ ts) i ls = register_all ts i (register_trigger t i ls)

unfoldable pub index_from : Platform → ℕ → List Command → Lookups → Lookups
index_from p i [] ls = ls
index_from p i (cmd ∷ cmds) ls =
    index_from p (suc i) cmds
      (if command_enabled p cmd then register_all (cmd.trigger ∷ cmd.aliases) i ls else ls)

-- The loop of `indexCommands`.
unfoldable pub index_commands : Platform → List Command → Lookups
index_commands p cmds = index_from p 0 cmds (record { single = []; multi = [] })

-- `a.commands[i]`.
unfoldable pub command_at : List Command → ℕ → Option Command
command_at [] i = none
command_at (cmd ∷ cmds) zero = some cmd
command_at (cmd ∷ cmds) (suc i) = command_at cmds i

abbrev pub any_fold : (Text → Text → Bool) → Text → List Text → Bool
any_fold equal_fold token [] = false
any_fold equal_fold token (t ∷ ts) =
    let rest = any_fold equal_fold token ts in if equal_fold t token then true else rest

-- `unindexedCommand`: whether a command that the platform does not run has the name.
unfoldable pub unindexed_command : (Text → Text → Bool) → Platform → List Command → Text → Bool
unindexed_command equal_fold p [] token = false
unindexed_command equal_fold p (cmd ∷ cmds) token =
    let rest = unindexed_command equal_fold p cmds token in
    if command_enabled p cmd
    then rest
    else (if any_fold equal_fold token (cmd.trigger ∷ cmd.aliases) then true else rest)
