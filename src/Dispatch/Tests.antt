-- ===== src/Dispatch/Tests.antt =====
-- Chat dispatch on a small registry, with ASCII letters.
use tripbot.Base.{
  ℕ, ◌+◌, ◌≡◌, ◌⊎◌, refl, inl, inr, true, false, ◌&&◌, some, List, [], ◌∷◌, All, Text, codes,
  same_text, leb, map, if◌then◌else◌,
}
use tripbot.Fuzzy.{
  fuzzy_lookup, search_all, consider, levenshtein, fill_rows, fill, first_row, fuzzy_max_distance,
}
use tripbot.Dispatch.Registry.{
  Command, twitch, youtube, command_enabled, command_at, index_commands, index_from, register_all,
  register_trigger, unindexed_command,
}
use tripbot.Dispatch.Lookup.{Words, parse, find_multi, find_command, normalize_command_prefix}
use tripbot.Dispatch.Gates.{
  User, reply, handle, record_refusal, record_run, App, admin_gate, unknown_command, wrong_platform,
  wrong_platform_msg, says, run_command,
}
use tripbot.Dispatch.Runs.{OneWay, run_command-OneWay}
use tripbot.Dispatch.Permits.{MayRun, run_command-MayRun}
use tripbot.Dispatch.Named.{HasName, glued, find_command_named}
use tripbot.Dispatch.Refused.{IsElsewhere, run_command_refuses}

abbrev lower : ℕ → ℕ
lower c = if leb b'A' c && leb c b'Z' then c + 32 else c

abbrev words : Words
words = record {
  trim = λ t. t;
  to_lower = map lower;
  equal_fold = λ a b. same_text (map lower a) (map lower b);
  is_letter = λ c. leb b'a' (lower c) && leb (lower c) b'z';
  states = codes "florida" ∷ codes "new york" ∷ [];
}

abbrev plain : Text → List Text → Command
plain trigger aliases = record {
  trigger = trigger;
  aliases = aliases;
  requires_follow = false;
  requires_subscriber = false;
  requires_admin = false;
  requires_mod = false;
  admin_denied = [];
}

abbrev commands : List Command
commands =
    plain (codes "hello") (codes "hi" ∷ [])
    ∷ plain (codes "!location") (codes "where is this" ∷ [])
    ∷ record (plain (codes "!shutdown") []) { requires_admin = true; admin_denied = codes "no" }
    ∷ plain (codes "!guess") []
    ∷ plain (codes "!find") (codes "!goto" ∷ [])
    ∷ []

abbrev on_twitch : App
on_twitch = record {
  platform = twitch;
  follower_gating = false;
  commands = commands;
  words = words;
}

abbrev on_youtube : App
on_youtube = record on_twitch { platform = youtube }

abbrev viewer : User
viewer = record {
  command_available = false;
  subscriber = false;
  broadcaster = false;
  moderator = false;
}

by_misspelling :
    run_command on_twitch false viewer (codes "!locaiton Now")
    ≡ handle 1 (codes "Now" ∷ [])
      ∷ record_run (codes "!location") (codes "!locaiton") (codes "Now")
      ∷ []
unfolding run_command index_commands index_from command_enabled register_all register_trigger
    normalize_command_prefix fuzzy_lookup search_all consider levenshtein fill_rows fill first_row
    fuzzy_max_distance
by_misspelling = refl

by_state_name :
    run_command on_twitch false viewer (codes "!New york")
    ≡ handle 3 (codes "new" ∷ codes "york" ∷ [])
      ∷ record_run (codes "!guess") (codes "!new york") (codes "new york")
      ∷ []
unfolding run_command index_commands index_from command_enabled register_all register_trigger
    normalize_command_prefix
by_state_name = refl

glued_on :
    run_command on_twitch false viewer (codes "!gotoflorida")
    ≡ handle 4 (codes "florida" ∷ [])
      ∷ record_run (codes "!find") (codes "!gotoflorida") (codes "florida")
      ∷ []
unfolding run_command index_commands index_from command_enabled register_all register_trigger
    normalize_command_prefix fuzzy_lookup search_all consider levenshtein fill_rows fill first_row
    fuzzy_max_distance
glued_on = refl

not_the_owner :
    run_command on_twitch false viewer (codes "!SHUTDOWN")
    ≡ reply (says (codes "no")) ∷ record_refusal (codes "!shutdown") [] admin_gate ∷ []
unfolding run_command index_commands index_from command_enabled register_all register_trigger
    normalize_command_prefix
not_the_owner = refl

not_on_youtube :
    run_command on_youtube false viewer (codes "!guess ohio")
    ≡ reply (wrong_platform_msg (codes "!guess"))
      ∷ record_refusal (codes "!guess") (codes "ohio") wrong_platform
      ∷ []
unfolding run_command index_commands index_from command_enabled register_all register_trigger
    normalize_command_prefix fuzzy_lookup search_all consider levenshtein fill_rows fill first_row
    fuzzy_max_distance unindexed_command
not_on_youtube = refl

talk : run_command on_twitch false viewer (codes "where is that") ≡ []
unfolding run_command index_commands index_from command_enabled register_all register_trigger
    normalize_command_prefix fuzzy_lookup search_all consider levenshtein fill_rows fill first_row
    fuzzy_max_distance
talk = refl

run_command-OneWay_example :
    OneWay commands false
      (find_command words (index_commands twitch commands) (codes "!New york"))
      (run_command on_twitch false viewer (codes "!New york"))
run_command-OneWay_example = run_command-OneWay on_twitch false viewer (codes "!New york")

run_command-MayRun_example :
    All (MayRun on_twitch viewer) (run_command on_twitch false viewer (codes "!New york"))
run_command-MayRun_example = run_command-MayRun on_twitch false viewer (codes "!New york")

run_command_refuses_example :
    let elsewhere = IsElsewhere words.equal_fold youtube commands (codes "!guess") in
    let es = run_command on_youtube false viewer (codes "!guess ohio") in
    (elsewhere
      × (es
          ≡ reply (wrong_platform_msg (codes "!guess"))
            ∷ record_refusal (codes "!guess") (codes "ohio") wrong_platform
            ∷ []))
    ⊎ ((¬ elsewhere) × (es ≡ record_refusal (codes "!guess") (codes "ohio") unknown_command ∷ []))
unfolding find_command index_commands index_from command_enabled register_all register_trigger
    normalize_command_prefix fuzzy_lookup search_all consider levenshtein fill_rows fill first_row
    fuzzy_max_distance
run_command_refuses_example =
    run_command_refuses on_youtube false viewer (codes "!guess ohio") refl refl

find_command_named_example :
    (j : ℕ) × HasName twitch commands (codes "!goto") j
    × (find_command words (index_commands twitch commands) (codes "!GOTO The Sea")
        ≡ some (j, codes "!goto", codes "The" ∷ codes "Sea" ∷ []))
unfolding parse find_multi index_commands index_from command_enabled register_all register_trigger
    normalize_command_prefix command_at
find_command_named_example =
    find_command_named words twitch commands (codes "!GOTO The Sea") (codes "!goto")
      (codes "The" ∷ codes "Sea" ∷ []) 4
      (
        record (plain (codes "!find") []) { aliases = codes "!goto" ∷ [] },
        refl,
        refl,
        inr (inl refl),
      )
      refl (glued (codes "!GOTO") (codes "The" ∷ codes "Sea" ∷ []) refl refl (inl (refl, refl)))
      refl
