-- ===== src/Corners/Tests.antt =====
-- The corners of a TikTok stream.
use mathlib.Core.Option.{some-injective}
use tripbot.Base.Int.{pos}
use tripbot.Base.{codes, ◌≡◌, refl, sym, ap, ◌∙◌, ℕ, ◌-◌, true, none, some, List, [], ◌∷◌, arith}
use tripbot.Rotator.{Vars, Message}
use tripbot.Rotator.Sanitize.{Corner, Config}
use tripbot.Corners.{
  ServerConfig, LocationStore, Draws, step, rotate, set_copy, new_corner, apply_config,
  set_location, rotate_left, rotate_right, start, Event, World, clip_changed, right_ticked,
  copy_edited, run,
}
use tripbot.Corners.Runs.{Verbatim, stale_ticks-Verbatim}

abbrev tiktok : ServerConfig
tiktok = record { platform = codes "tiktok"; youtube_inbound_enabled = true }

abbrev follow : Message
follow = record { text = codes "Follow along, !follow"; platforms = []; weight = pos 1 }

abbrev both : Corner
both = record { messages = []; promo_messages = follow ∷ [] }

abbrev copy : Config
copy = record { left = both; right = both; rare_message = codes "You found it!" }

abbrev no_clip : LocationStore
no_clip = record { vars = []; updated_at = none }

-- The last number below the bound.
abbrev last_draws : Draws
last_draws = record { rare = λ n. n - 1; line = λ n. n - 1 }

abbrev clip : Vars
clip = (codes "location", codes "Utah") ∷ (codes "date", codes "May 4") ∷ []

abbrev events : List Event
events = clip_changed clip 2 ∷ right_ticked 3 last_draws ∷ copy_edited copy ∷ []

abbrev world : World
world = run tiktok events (start tiktok copy no_clip 1 last_draws last_draws)

clip_is : world.clip ≡ record { vars = clip; updated_at = some 2 }
unfolding run step start rotate_left rotate_right rotate set_copy new_corner apply_config
    set_location
clip_is = refl

arrived : (t : ℕ) → world.clip.updated_at ≡ some t → t ≡ 2
arrived t e = sym (some-injective 2 t (ap (λ c. c.updated_at) (sym clip_is) ∙ e))

stale_ticks-Verbatim_example :
    Verbatim tiktok world.left (rotate_left tiktok 400000000000 last_draws world).left.shown
    × Verbatim tiktok world.right (rotate_right tiktok 400000000000 last_draws world).right.shown
stale_ticks-Verbatim_example =
    stale_ticks-Verbatim tiktok world 400000000000 last_draws (λ n h. omega (arith, h))
      (λ t e. omega (arith, arrived t e))
