-- ===== src/Onscreen/Tests.antt =====
-- An overlay on a concrete clock, and the theorems at it.
use tripbot.Base.{Text, ◌+◌, ◌≡◌, ◌<◌, refl, true, List, [], ◌∷◌, arith}
use tripbot.Onscreen.{
  new_onscreen, show_for, show, Step, to_show_for, to_sweep, to_render, apply_all,
}
use tripbot.Onscreen.Window.{InTime, asked, show_for_stacks}

-- A renderer that doubles every character.
abbrev doubled : Text → Text
doubled [] = []
doubled (c ∷ cs) = c ∷ c ∷ doubled cs

abbrev steps : List Step
steps = to_sweep 15 ∷ to_show_for 18 (2 ∷ []) 5 ∷ to_render ∷ to_sweep 25 ∷ []

steps-InTime : InTime (10 + 10) steps
unfolding InTime
steps-InTime = ground arith

late : (new_onscreen 0).expires < 10
unfolding new_onscreen
late = omega arith

shown : (show (1 ∷ []) (new_onscreen 5)).is_showing ≡ true
unfolding show
shown = refl

show_for_stacks_example :
    let o' = apply_all doubled steps (show_for 10 (1 ∷ []) 10 (new_onscreen 0)) in
    (o'.is_showing ≡ true) × (o'.expires ≡ 10 + 10 + asked steps)
show_for_stacks_example =
    show_for_stacks doubled 10 (1 ∷ []) 10 steps (new_onscreen 0) late steps-InTime
