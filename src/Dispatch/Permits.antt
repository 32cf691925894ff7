-- ===== src/Dispatch/Permits.antt =====
-- Chat dispatch: who may run what.
use tripbot.Base.{
  ℕ, ◌≡◌, ◌⊎◌, refl, Bool, true, false, Option, none, some, List, [], ◌∷◌, All, All-append, Text,
  arith,
}
use tripbot.Dispatch.Registry.{
  Command, has_subscribers, command_enabled, command_at, index_commands,
}
use tripbot.Dispatch.Lookup.{Found, find_command, words_of}
use tripbot.Dispatch.Gates.{
  User, Refusal, Reply, Effect, handle, App, check_access, replies, after_check, dispatch,
  not_found, run_found, run_command,
}
use tripbot.Dispatch.Found.{find_command_enabled}

-- The sender passes the gates of a command: the channel's owner for an admin command; the owner or a
-- moderator for a moderator command; a viewer whom HasCommandAvailable lets through where a follower
-- is asked for and gating is on, which is a follower or one who had no such command today; a
-- subscriber where the platform has them.
abbrev pub Passes : App → User → Command → Type 0
Passes a u cmd =
    ((cmd.requires_admin ≡ false) ⊎ (u.broadcaster ≡ true))
    × ((cmd.requires_mod ≡ false) ⊎ (u.broadcaster ≡ true) ⊎ (u.moderator ≡ true))
    × ((cmd.requires_follow ≡ false) ⊎ (a.follower_gating ≡ false) ⊎ (u.command_available ≡ true))
    × ((cmd.requires_subscriber ≡ false)
        ⊎ (has_subscribers a.platform ≡ false)
        ⊎ (u.subscriber ≡ true))

check_access-Passes :
    (a : App) (cmd : Command) (u : User) → (check_access a cmd u).0 ≡ none → Passes a u cmd
unfolding check_access
check_access-Passes a cmd u h = ground (arith, h)

-- A handler that is called is that of a command which the platform runs and the sender may run.
abbrev pub MayRun : App → User → Effect → Type 0
MayRun a u (handle i params) =
    (cmd : Command) × (command_at a.commands i ≡ some cmd)
    × (command_enabled a.platform cmd ≡ true)
    × Passes a u cmd
MayRun a u _ = Unit

replies-MayRun : (a : App) (u : User) (rs : List Reply) → All (MayRun a u) (replies rs)
replies-MayRun a u [] = tt
replies-MayRun a u (r ∷ rs) = (tt, replies-MayRun a u rs)

after_check-MayRun :
    (a : App) (refuses : Bool) (u : User) (cmd : Command) (i : ℕ) (typed : Text)
    (params : List Text) (verdict : Option Refusal) (rs : List Reply)
    → command_at a.commands i ≡ some cmd
    → command_enabled a.platform cmd ≡ true
    → (verdict ≡ none → Passes a u cmd)
    → All (MayRun a u) (after_check refuses cmd i typed params (verdict, rs))
after_check-MayRun a refuses u cmd i typed params (some r) rs at on pass =
    All-append (MayRun a u) (replies rs) _ (replies-MayRun a u rs) (tt, tt)
after_check-MayRun a true u cmd i typed params none rs at on pass =
    All-append (MayRun a u) (replies rs) _ (replies-MayRun a u rs) ((cmd, at, on, pass refl), tt)
after_check-MayRun a false u cmd i typed params none rs at on pass =
    All-append (MayRun a u) (replies rs) _ (replies-MayRun a u rs)
      ((cmd, at, on, pass refl), (tt, tt))

not_found-MayRun : (a : App) (u : User) (words : List Text) → All (MayRun a u) (not_found a words)
not_found-MayRun a u words = ground arith

run_found-MayRun :
    (a : App) (refuses : Bool) (u : User) (words : List Text) (f : Found)
    → ((i : ℕ) (typed : Text) (params : List Text)
        → f ≡ some (i, typed, params)
        → (cmd : Command) × (command_at a.commands i ≡ some cmd)
          × (command_enabled a.platform cmd ≡ true))
    → All (MayRun a u) (run_found a refuses u words f)
unfolding dispatch
run_found-MayRun a refuses u words none on = not_found-MayRun a u words
run_found-MayRun a refuses u words (some (i, typed, params)) on =
    let (cmd, here, enabled) = on i typed params refl in
    rw here (
      after_check-MayRun a refuses u cmd i typed params (check_access a cmd u).0
        (check_access a cmd u).1 here enabled (check_access-Passes a cmd u))

-- Whatever a viewer types, a handler is called only for a command that the platform runs and whose
-- gates the sender passes: the channel's owner for an admin command, the owner or a moderator for a
-- moderator command, a viewer whom `HasCommandAvailable` lets through (a follower, or one who used
-- no such command within the day) where the command asks for a follower and gating is on, and a
-- subscriber where the command asks for one and the platform has them.
pub run_command-MayRun :
    (a : App) (refuses : Bool) (u : User) (message : Text)
    → All (MayRun a u) (run_command a refuses u message)
unfolding run_command
run_command-MayRun a refuses u message =
    run_found-MayRun a refuses u (words_of a.words message)
      (find_command a.words (index_commands a.platform a.commands) message)
      (λ i typed params found.
        find_command_enabled a.words a.platform a.commands message i typed params found)
