-- ===== src/Onscreen/Window.antt =====
-- How long an overlay shows.
use tripbot.Base.{
  Text, ℕ, ◌+◌, ◌≤◌, ◌<◌, ◌≡◌, ◌↔◌, ◌∙◌, sym, subst, refl, Bool, true, false, List, [], ◌∷◌, arith,
  ltb, if◌then◌else◌,
}
use tripbot.Onscreen.{
  Onscreen, extend, show_for, set_content, sweep, rendered_content, Step, to_show, to_show_for,
  to_hide, to_set_content, to_set_state, to_sweep, to_render, apply, apply_all,
}

-- Steps that come before the window that ends at `e` is over: sweeps, further `ShowFor`s, new
-- content and reads.
unfoldable pub InTime : ℕ → List Step → Type 0
InTime e [] = Unit {0}
InTime e (to_sweep now ∷ ss) = (now ≤ e) × InTime e ss
InTime e (to_show_for now c dur ∷ ss) = (now ≤ e) × InTime (e + dur) ss
InTime e (to_set_content c ∷ ss) = InTime e ss
InTime e (to_render ∷ ss) = InTime e ss
InTime e (to_show c ∷ ss) = ⊥
InTime e (to_hide ∷ ss) = ⊥
InTime e (to_set_state c b ∷ ss) = ⊥

-- The durations that the steps ask for.
abbrev pub asked : List Step → ℕ
asked [] = 0
asked (to_show_for now c dur ∷ ss) = dur + asked ss
asked (_ ∷ ss) = asked ss

sweep_early : (now : ℕ) (o : Onscreen) → now ≤ o.expires → o.dont_expire ≡ false → sweep now o ≡ o
unfolding sweep
sweep_early now o h d = ground (arith, h, d)

show_for_early :
    (now : ℕ) (c : Text) (dur : ℕ) (o : Onscreen)
    → now ≤ o.expires
    → (show_for now c dur o).expires ≡ o.expires + dur
unfolding show_for extend
show_for_early now c dur o h = ground arith

show_for_late :
    (now : ℕ) (c : Text) (dur : ℕ) (o : Onscreen)
    → o.expires < now
    → (show_for now c dur o).expires ≡ now + dur
unfolding show_for extend
show_for_late now c dur o h = ground arith

show_for_shows :
    (now : ℕ) (c : Text) (dur : ℕ) (o : Onscreen) → (show_for now c dur o).is_showing ≡ true
unfolding show_for
show_for_shows now c dur o = refl

show_for_window :
    (now : ℕ) (c : Text) (dur : ℕ) (o : Onscreen) → (show_for now c dur o).dont_expire ≡ false
unfolding show_for extend
show_for_window now c dur o = ground arith

rendered_content_window :
    (render : Text → Text) (o : Onscreen)
    → let o' = rendered_content render o in
      (o'.is_showing ≡ o.is_showing) × (o'.dont_expire ≡ o.dont_expire) × (o'.expires ≡ o.expires)
unfolding rendered_content
rendered_content_window render o = ground arith

stays_up :
    (render : Text → Text) (ss : List Step) (o : Onscreen)
    → InTime o.expires ss
    → o.is_showing ≡ true
    → o.dont_expire ≡ false
    → let o' = apply_all render ss o in
      (o'.is_showing ≡ true) × (o'.dont_expire ≡ false) × (o'.expires ≡ o.expires + asked ss)
unfolding apply_all apply InTime show_for extend sweep set_content rendered_content
stays_up render [] o h s d = ground arith
stays_up render (to_sweep now ∷ ss) o h s d =
    subst
      (λ x.
        ((apply_all render ss x).is_showing ≡ true)
        × ((apply_all render ss x).dont_expire ≡ false)
        × ((apply_all render ss x).expires ≡ o.expires + asked ss))
      (sym (sweep_early now o h.0 d)) (stays_up render ss o h.1 s d)
stays_up render (to_show_for now c dur ∷ ss) o h s d =
    let e = show_for_early now c dur o h.0 in
    let next =
      stays_up render ss (show_for now c dur o) (rw e h.1) refl (show_for_window now c dur o) in
    (next.0, next.1, next.2 ∙ omega (arith, e))
stays_up render (to_set_content c ∷ ss) o h s d = stays_up render ss (set_content c o) h s d
stays_up render (to_render ∷ ss) o h s d =
    let k = rendered_content_window render o in
    let next = stays_up render ss (rendered_content render o) (rw k.2 h) (k.0 ∙ s) (k.1 ∙ d) in
    (next.0, next.1, next.2 ∙ omega (arith, k.2))
stays_up render (to_show c ∷ ss) o h s d = elim h [ ]
stays_up render (to_hide ∷ ss) o h s d = elim h [ ]
stays_up render (to_set_state c b ∷ ss) o h s d = elim h [ ]

-- An overlay that is shown for a time, when nothing is left of an earlier window, shows through
-- every sweep before its window is over, and each further `ShowFor` within the window moves its end
-- out by that call's duration.
pub show_for_stacks :
    (render : Text → Text) (now : ℕ) (c : Text) (dur : ℕ) (ss : List Step) (o : Onscreen)
    → o.expires < now
    → InTime (now + dur) ss
    → let o' = apply_all render ss (show_for now c dur o) in
      (o'.is_showing ≡ true) × (o'.expires ≡ now + dur + asked ss)
show_for_stacks render now c dur ss o over h =
    let e = show_for_late now c dur o over in
    let up =
      stays_up render ss (show_for now c dur o) (rw e h) (show_for_shows now c dur o)
        (show_for_window now c dur o) in
    (up.0, up.2 ∙ omega (arith, e))

-- Sweeps at the given times.
abbrev pub sweeps : List ℕ → List Step
sweeps [] = []
sweeps (t ∷ ts) = to_sweep t ∷ sweeps ts

abbrev pub any_later : ℕ → List ℕ → Bool
any_later e [] = false
any_later e (t ∷ ts) = let rest = any_later e ts in if ltb e t then true else rest

swept :
    (render : Text → Text) (ts : List ℕ) (o : Onscreen)
    → (apply_all render (sweeps ts) o).is_showing ≡ (
        if o.dont_expire
        then o.is_showing
        else (if any_later o.expires ts then false else o.is_showing))
unfolding apply_all apply sweep
swept render [] o = ground arith
swept render (t ∷ ts) o = ground (arith, swept render ts (sweep t o))

-- While nothing but the sweeps touches a showing overlay, it is hidden exactly when it expires and
-- some sweep came after its expiry.
pub sweeps-is_showing :
    (render : Text → Text) (ts : List ℕ) (o : Onscreen)
    → o.is_showing ≡ true
    → ((apply_all render (sweeps ts) o).is_showing ≡ false)
      ↔ ((o.dont_expire ≡ false) × (any_later o.expires ts ≡ true))
sweeps-is_showing render ts o s =
    (λ h. ground (arith, h, s, swept render ts o), λ h. ground (arith, h, s, swept render ts o))
