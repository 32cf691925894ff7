-- ===== src/Corners/Runs.antt =====
-- The corners over any run from their start.
use tripbot.Base.{
  Text, OneOf, ◌≡◌, ◌≢◌, refl, sym, subst, inl, inr, ℕ, ◌<◌, ◌+◌, ◌-◌, true, Option, some, List, [],
  ◌∷◌, arith, ltb, Option-cases, lt→ltb,
}
use tripbot.Rotator.{Vars, Message, value, all_known, variables_in, resolvable, expand}
use tripbot.Rotator.Fits.{Fits}
use tripbot.Rotator.Pick.{Among, Shown}
use tripbot.Corners.{
  ServerConfig, Rotator, LocationStore, Draws, left_live_line, right_live_line, pool,
  sibling_commands, content, rotate, snapshot, World, rotate_left, rotate_right,
}
use tripbot.Corners.Lines.{Line, rare, apart, any, nothing, IsDraw, content-Line}

-- What no event changes.
record IsWired (w : World) : Type 0 where
  left_live : w.left.live_line ≡ left_live_line
  right_live : w.right.live_line ≡ right_live_line
  right_rare : w.right.copy.rare_message ≡ []

-- The line that a corner puts up shares no command with the sibling's.
abbrev pub PutsApart : ServerConfig → Vars → Option Text → Rotator → Option Text → Type 0
PutsApart cfg vars sibling r after =
    (line : Text) × (after ≡ some line)
    × Shown cfg.platform (sibling_commands sibling) vars (pool cfg r) line

-- A line as it was written, without variables.
pub data Verbatim (cfg : ServerConfig) (r : Rotator) : Option Text → Type 0 where
  blank : Verbatim cfg r (some [])
  easter_egg : variables_in r.copy.rare_message ≡ [] → Verbatim cfg r (some r.copy.rare_message)
  from_pool :
      (m : Message) → Among m (pool cfg r) → variables_in m.text ≡ [] → Verbatim cfg r (some m.text)

nothing_known : (vs : List Text) → all_known [] vs ≡ true → vs ≡ []
nothing_known [] h = refl
nothing_known (v ∷ vs) h = ground (arith, h)

nothing_filled : (vs : List Text) → ((v : Text) → OneOf v vs → value [] v ≢ []) → vs ≡ []
nothing_filled [] h = refl
nothing_filled (v ∷ vs) h = absurd (h v (inl refl) refl)

Shown-Verbatim :
    (cfg : ServerConfig) (r : Rotator) (exclude : List Text) (line : Text)
    → Shown cfg.platform exclude [] (pool cfg r) line
    → Verbatim cfg r (some line)
unfolding expand
Shown-Verbatim cfg r exclude line s =
    subst (λ t. Verbatim cfg r (some t)) (sym s.line_is)
      (from_pool s.message s.listed (nothing_filled (variables_in s.message.text) s.fits.filled))

Line-Verbatim :
    (cfg : ServerConfig) (sibling : Option Text) (r : Rotator) (line : Text)
    → Line cfg [] sibling r line
    → Verbatim cfg r (some line)
unfolding resolvable expand
Line-Verbatim cfg sibling r line (rare some_rare known) =
    easter_egg (nothing_known (variables_in r.copy.rare_message) known)
Line-Verbatim cfg sibling r line (apart x s) =
    Shown-Verbatim cfg r (sibling_commands sibling) line s
Line-Verbatim cfg sibling r line (any x none_fit s) = Shown-Verbatim cfg r [] line s
Line-Verbatim cfg sibling r line (nothing none_left) = blank

snapshot-stale :
    (now : ℕ) (s : LocationStore)
    → ((t : ℕ) → s.updated_at ≡ some t → 300000000000 + t < now)
    → snapshot now s ≡ []
unfolding snapshot
snapshot-stale now s stale = elim (Option-cases s.updated_at) [
  | inl e ↦ rw (snapshot, e) refl
  | inr (t, e) ↦
      let over : ltb 300000000000 (now - t) ≡ true =
        lt→ltb 300000000000 (now - t) (omega (arith, stale t e)) in
      rw (snapshot, e, over) refl
]

-- For a source of numbers that answers below what it is asked for, when no clip data has arrived
-- for more than five minutes, or none ever has, a tick of a corner puts up a line of its copy as it
-- was written, in which there is no variable, or nothing.
pub stale_ticks-Verbatim :
    (cfg : ServerConfig) (w : World) (now : ℕ) (d : Draws)
    → IsDraw d.line
    → ((t : ℕ) → w.clip.updated_at ≡ some t → 300000000000 + t < now)
    → Verbatim cfg w.left (rotate_left cfg now d w).left.shown
      × Verbatim cfg w.right (rotate_right cfg now d w).right.shown
unfolding rotate_left rotate_right rotate snapshot
stale_ticks-Verbatim cfg w now d low stale =
    let none_left : snapshot now w.clip ≡ [] = snapshot-stale now w.clip stale in
    (
      subst (λ vars. Verbatim cfg w.left (some (content cfg d vars w.right.shown w.left)))
          (sym none_left)
          (Line-Verbatim cfg w.right.shown w.left (content cfg d [] w.right.shown w.left)
            (content-Line cfg d [] w.right.shown w.left low)),
      subst (λ vars. Verbatim cfg w.right (some (content cfg d vars w.left.shown w.right)))
          (sym none_left)
          (Line-Verbatim cfg w.left.shown w.right (content cfg d [] w.left.shown w.right)
            (content-Line cfg d [] w.left.shown w.right low)),
    )
