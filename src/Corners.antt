-- ===== src/Corners.antt =====
-- pkg/onscreens-server/rotator.go and live-data.go: the two corners with their copy, the line that
-- each shows, and the clip data. A tick of a loop takes the time and its two draws, `rand.Intn` as a
-- function of the bound. The copy arrives decoded, from the console or from the cache at the start.
pub mod Lines
pub mod Runs
mod Tests
use tripbot.Base.Int.{pos}
use tripbot.Base.{
  Text, codes, ℕ, ◌-◌, Bool, true, false, not, ◌&&◌, Option, none, some, List, [], ◌∷◌, ◌++◌,
  same_text, ltb, ◌==◌, if◌then◌else◌,
}
use tripbot.Rotator.{Vars, Message, is_empty, commands_in, resolvable, expand, pick}
use tripbot.Rotator.Sanitize.{Corner, Config}

pub record RotatorCopy : Type 0 where
  pub messages : List Message
  pub promo_messages : List Message
  pub rare_message : Text

pub record ServerConfig : Type 0 where
  pub platform : Text
  pub youtube_inbound_enabled : Bool

-- `shown` is the overlay's content, none before the start.
pub record Rotator : Type 0 where
  pub live_line : Message
  pub copy : RotatorCopy
  pub shown : Option Text

-- The clip data with the time of its arrival.
pub record LocationStore : Type 0 where
  pub vars : Vars
  pub updated_at : Option ℕ

-- Five minutes.
abbrev location_data_ttl : ℕ
location_data_ttl = 300000000000

-- `snapshot`.
pub snapshot : ℕ → LocationStore → Vars
snapshot now s = elim s.updated_at [
  | none ↦ []
  | some t ↦ if ltb location_data_ttl (now - t) then [] else s.vars
]

abbrev rare_odds : ℕ
rare_odds = 10000

-- Pins and calendars, in UTF-8.
abbrev pub left_live_line : Message
left_live_line = record {
  text = 240 ∷ 159 ∷ 147 ∷ 141 ∷ codes " $location";
  platforms = [];
  weight = pos 6;
}

abbrev pub right_live_line : Message
right_live_line = record {
  text = 240 ∷ 159 ∷ 147 ∷ 133 ∷ codes " $date";
  platforms = [];
  weight = pos 6;
}

-- `setCopy`.
pub set_copy : Corner → Text → Rotator → Rotator
set_copy corner rare r = record r {
  copy = record {
    messages = corner.messages;
    promo_messages = corner.promo_messages;
    rare_message = rare;
  };
}

-- `newCornerRotator`.
pub new_corner : Message → Corner → Text → Rotator
new_corner live corner rare = set_copy corner rare (record {
  live_line = live;
  copy = record { messages = []; promo_messages = []; rare_message = [] };
  shown = none;
})

pub promo_mode : ServerConfig → Bool
promo_mode cfg =
    if same_text cfg.platform (codes "tiktok")
    then true
    else (if same_text cfg.platform (codes "instagram")
        then true
        else (if same_text cfg.platform (codes "youtube")
            then not cfg.youtube_inbound_enabled
            else false))

pub pool : ServerConfig → Rotator → List Message
pool cfg r =
    if promo_mode cfg
    then (if is_empty r.live_line.text
        then r.copy.promo_messages
        else r.live_line ∷ r.copy.promo_messages)
    else r.copy.messages

-- By the sibling's content.
pub sibling_commands : Option Text → List Text
sibling_commands none = []
sibling_commands (some line) = commands_in line

-- What a tick draws.
pub record Draws : Type 0 where
  pub rare : ℕ → ℕ
  pub line : ℕ → ℕ

abbrev pub takes_rare : Draws → Vars → Rotator → Bool
takes_rare d vars r =
    not (is_empty r.copy.rare_message)
    && resolvable vars r.copy.rare_message
    && d.rare rare_odds == 0

pub content : ServerConfig → Draws → Vars → Option Text → Rotator → Text
content cfg d vars sibling r =
    if takes_rare d vars r
    then expand vars r.copy.rare_message
    else pick d.line cfg.platform (pool cfg r) (sibling_commands sibling) vars

-- One pass of `loop`, and the priming of `start`.
pub rotate : ServerConfig → Draws → Vars → Option Text → Rotator → Rotator
rotate cfg d vars sibling r = record r { shown = some (content cfg d vars sibling r) }

pub record World : Type 0 where
  pub left : Rotator
  pub right : Rotator
  pub clip : LocationStore

pub rotate_left : ServerConfig → ℕ → Draws → World → World
rotate_left cfg now d w = record w {
  left = rotate cfg d (snapshot now w.clip) w.right.shown w.left;
}

pub rotate_right : ServerConfig → ℕ → Draws → World → World
rotate_right cfg now d w = record w {
  right = rotate cfg d (snapshot now w.clip) w.left.shown w.right;
}

-- `startRotators`, with the copy of the binary.
pub start : ServerConfig → Config → LocationStore → ℕ → Draws → Draws → World
start cfg def clip now d e = rotate_right cfg now e (
    rotate_left cfg now d (record {
      left = new_corner left_live_line def.left def.rare_message;
      right = new_corner right_live_line def.right [];
      clip = clip;
    }))

-- `applyRotatorConfig`.
pub apply_config : Config → World → World
apply_config c w = record w {
  left = set_copy c.left c.rare_message w.left;
  right = set_copy c.right [] w.right;
}

-- `set` of the location store.
pub set_location : Vars → ℕ → World → World
set_location vars now w = record w { clip = record { vars = vars; updated_at = some now } }

pub data Event : Type 0 where
  left_ticked : ℕ → Draws → Event
  right_ticked : ℕ → Draws → Event
  copy_edited : Config → Event
  clip_changed : Vars → ℕ → Event

pub step : ServerConfig → Event → World → World
step cfg (left_ticked now d) w = rotate_left cfg now d w
step cfg (right_ticked now d) w = rotate_right cfg now d w
step cfg (copy_edited c) w = apply_config c w
step cfg (clip_changed vars now) w = set_location vars now w

pub run : ServerConfig → List Event → World → World
run cfg [] w = w
run cfg (e ∷ es) w = run cfg es (step cfg e w)
