-- ===== src/Onscreen/Memo.antt =====
-- The rendered content never lags behind the content.
use tripbot.Base.{
  Text, same_text, same_text_eq, ℕ, ◌≡◌, ◌∙◌, sym, inl, inr, Bool-cases, refl, List, [], ◌∷◌, arith,
  ap,
}
use tripbot.Onscreen.{
  Onscreen, extend, show, show_for, hide, set_content, set_state, sweep, rendered_content, Step,
  to_show, to_show_for, to_hide, to_set_content, to_set_state, to_sweep, to_render, apply,
  apply_all, new_onscreen,
}

-- The memo holds what its source renders to.
abbrev pub IsMemo : (Text → Text) → Onscreen → Type 0
IsMemo render o = o.rendered ≡ render o.rendered_from

apply-IsMemo :
    (render : Text → Text) (s : Step) (o : Onscreen)
    → IsMemo render o
    → IsMemo render (apply render s o)
unfolding apply show show_for extend hide set_content set_state sweep rendered_content
apply-IsMemo render (to_show c) o h = ground (arith, h)
apply-IsMemo render (to_show_for now c dur) o h = ground (arith, h)
apply-IsMemo render to_hide o h = ground (arith, h)
apply-IsMemo render (to_set_content c) o h = ground (arith, h)
apply-IsMemo render (to_set_state c b) o h = ground (arith, h)
apply-IsMemo render (to_sweep now) o h = ground (arith, h)
apply-IsMemo render to_render o h = ground (arith, h)

apply_all-IsMemo :
    (render : Text → Text) (ss : List Step) (o : Onscreen)
    → IsMemo render o
    → IsMemo render (apply_all render ss o)
unfolding apply_all
apply_all-IsMemo render [] o h = h
apply_all-IsMemo render (s ∷ ss) o h =
    apply_all-IsMemo render ss (apply render s o) (apply-IsMemo render s o h)

new_onscreen-IsMemo :
    (render : Text → Text) (now : ℕ) → render [] ≡ [] → IsMemo render (new_onscreen now)
unfolding new_onscreen
new_onscreen-IsMemo render now h = sym h

fresh_read :
    (render : Text → Text) (o : Onscreen)
    → IsMemo render o
    → (rendered_content render o).rendered ≡ render o.content
unfolding rendered_content
fresh_read render o h = elim (Bool-cases (same_text o.rendered_from o.content)) [
  | inl same ↦
      rw (rendered_content, same) (h ∙ ap render (same_text_eq o.rendered_from o.content same))
  | inr other ↦ rw (rendered_content, other) refl
]

-- After any steps on a new overlay, a read answers with the rendering of the current content, when
-- the empty text renders as itself.
pub rendered_content-render :
    (render : Text → Text) (now : ℕ) (ss : List Step)
    → render [] ≡ []
    → let o = apply_all render ss (new_onscreen now) in
      (rendered_content render o).rendered ≡ render o.content
rendered_content-render render now ss h =
    fresh_read render (apply_all render ss (new_onscreen now))
      (apply_all-IsMemo render ss (new_onscreen now) (new_onscreen-IsMemo render now h))
