-- ===== src/Dispatch/Gates.antt =====
-- handlers.go: checkAccess, dispatch and runCommand. What a run does is its list of effects: replies,
-- the call of the handler, and the rows of the event log. A handler may refuse by itself, which
-- writes the refusal's row from inside, and is then told apart by its mark. There is an event log; what
-- it adds to a row by itself (the user, the clip on air) is left out.
use tripbot.Base.{
  ℕ, Bool, not, ◌&&◌, ◌||◌, Option, none, some, List, [], ◌∷◌, ◌++◌, Text, codes, same_text,
  has_prefix, if◌then◌else◌,
}
use tripbot.Dispatch.Registry.{
  Command, Platform, has_subscribers, index_commands, command_at, unindexed_command,
}
use tripbot.Dispatch.Lookup.{Words, Found, rest_of, join, words_of, find_command}

-- What the access check reads of the sender: `sessionUser` over the platform's flags and the session.
pub record User : Type 0 where
  pub command_available : Bool
  pub subscriber : Bool
  pub broadcaster : Bool
  pub moderator : Bool

pub data Refusal : Type 0 where
  admin_gate mod_gate follow_gate sub_gate unknown_command wrong_platform : Refusal

-- The two fixed denials, one text of the caller, and the one with the command's name.
pub data Reply : Type 0 where
  says : Text → Reply
  follower_msg : Reply
  subscriber_msg : Reply
  wrong_platform_msg : Text → Reply

pub data Effect : Type 0 where
  reply : Reply → Effect
  handle : ℕ → List Text → Effect
  record_refusal : Text → Text → Refusal → Effect
  record_run : Text → Text → Text → Effect

-- The fixed settings: the platform, whether follower gating is on, the registry and the texts.
pub record App : Type 0 where
  pub platform : Platform
  pub follower_gating : Bool
  pub commands : List Command
  pub words : Words

abbrev pub is_mod : User → Bool
is_mod u = u.broadcaster || u.moderator

abbrev denial : Text → List Reply
denial msg = if same_text msg [] then [] else says msg ∷ []

-- `checkAccess`: the gate that refuses, if any, and the replies.
unfoldable pub check_access : App → Command → User → Option Refusal × List Reply
check_access a cmd u =
    if cmd.requires_admin && not u.broadcaster
    then (some admin_gate, denial cmd.admin_denied)
    else (if cmd.requires_mod && not (is_mod u)
        then (some mod_gate, denial cmd.admin_denied)
        else (if a.follower_gating && cmd.requires_follow && not u.command_available
            then (some follow_gate, follower_msg ∷ [])
            else (if cmd.requires_subscriber && has_subscribers a.platform && not u.subscriber
                then (some sub_gate, subscriber_msg ∷ [])
                else (none, []))))

abbrev pub replies : List Reply → List Effect
replies [] = []
replies (r ∷ rs) = reply r ∷ replies rs

abbrev pub typed_as : Text → Text → Text
typed_as typed trigger = if same_text typed trigger then [] else typed

-- The effects after the access check; `refuses` is whether the handler sets its refusal mark.
abbrev pub after_check :
    Bool → Command → ℕ → Text → List Text → Option Refusal × List Reply → List Effect
after_check refuses cmd i typed params (some r, rs) =
    replies rs ++ record_refusal cmd.trigger (join params) r ∷ []
after_check refuses cmd i typed params (none, rs) =
    replies rs
    ++ handle i params
      ∷ (if refuses
          then []
          else record_run cmd.trigger (typed_as typed cmd.trigger) (join params) ∷ [])

unfoldable pub dispatch : App → Bool → Command → ℕ → Text → User → List Text → List Effect
unfolding check_access
dispatch a refuses cmd i typed u params =
    after_check refuses cmd i typed params (check_access a cmd u)

-- The command's word as `runCommand` parses it.
abbrev pub spoken : (Text → Text) → List Text → Text
spoken to_lower [] = to_lower []
spoken to_lower (w ∷ []) = to_lower w
spoken to_lower (w ∷ v ∷ ws) =
    if same_text (to_lower w) (codes "!") then codes "!" ++ to_lower v else to_lower w

-- No command was found.
abbrev pub not_found : App → List Text → List Effect
not_found a words =
    let command = spoken a.words.to_lower words in
    let args = join (rest_of words) in
    if has_prefix (codes "!") command
    then (if unindexed_command a.words.equal_fold a.platform a.commands command
        then reply (wrong_platform_msg command) ∷ record_refusal command args wrong_platform ∷ []
        else record_refusal command args unknown_command ∷ [])
    else []

abbrev pub run_at : App → Bool → User → ℕ → Text → List Text → Option Command → List Effect
run_at a refuses u i typed params none = []
run_at a refuses u i typed params (some cmd) = dispatch a refuses cmd i typed u params

abbrev pub run_found : App → Bool → User → List Text → Found → List Effect
run_found a refuses u words none = not_found a words
run_found a refuses u words (some (i, typed, params)) =
    run_at a refuses u i typed params (command_at a.commands i)

unfoldable pub run_command : App → Bool → User → Text → List Effect
unfolding find_command dispatch command_at
run_command a refuses u message =
    run_found a refuses u (words_of a.words message)
      (find_command a.words (index_commands a.platform a.commands) message)
