-- ===== src/Onscreen.antt =====
-- pkg/onscreens-server/onscreens.go: one overlay and its expiry. The mutex makes each method one step, and
-- each step that reads the clock takes the time as an argument. `render` stands for the markdown
-- renderer, whose result is kept in a memo.
pub mod Window
pub mod Memo
mod Tests
use tripbot.Base.{
  Text, same_text, ℕ, ◌+◌, Bool, true, false, List, [], ◌∷◌, ltb, ◌==◌, ◌&&◌, if◌then◌else◌,
}

pub record Onscreen : Type 0 where
  pub content : Text
  pub is_showing : Bool
  pub expires : ℕ
  pub dont_expire : Bool
  pub rendered : Text
  pub rendered_from : Text

-- `newOnscreen`.
unfoldable pub new_onscreen : ℕ → Onscreen
new_onscreen now = record {
  content = [];
  is_showing = false;
  expires = now;
  dont_expire = false;
  rendered = [];
  rendered_from = [];
}

abbrev pub expired : ℕ → Onscreen → Bool
expired now o = if o.dont_expire then false else ltb o.expires now

-- `extendLocked`.
unfoldable pub extend : ℕ → ℕ → Onscreen → Onscreen
extend now dur o =
    if expired now o
    then record o { expires = now + dur }
    else record o { expires = o.expires + dur }

unfoldable pub show : Text → Onscreen → Onscreen
show content o = record o { dont_expire = true; is_showing = true; content = content }

unfoldable pub show_for : ℕ → Text → ℕ → Onscreen → Onscreen
show_for now content dur o = record (extend now dur (record o { dont_expire = false })) {
  is_showing = true;
  content = content;
}

unfoldable pub hide : Onscreen → Onscreen
hide o = record o { is_showing = false }

unfoldable pub set_content : Text → Onscreen → Onscreen
set_content content o = record o { content = content }

unfoldable pub set_state : Text → Bool → Onscreen → Onscreen
set_state content showing o = record o { content = content; is_showing = showing }

-- One pass of `backgroundLoop`.
unfoldable pub sweep : ℕ → Onscreen → Onscreen
sweep now o = if o.is_showing && expired now o then record o { is_showing = false } else o

-- `renderedContent`: the memo after the read; its `rendered` is the answer.
unfoldable pub rendered_content : (Text → Text) → Onscreen → Onscreen
rendered_content render o =
    if same_text o.rendered_from o.content
    then o
    else record o { rendered = render o.content; rendered_from = o.content }

-- The overlay's methods, with the time of those that read the clock.
pub data Step : Type 0 where
  to_show : Text → Step
  to_show_for : ℕ → Text → ℕ → Step
  to_hide : Step
  to_set_content : Text → Step
  to_set_state : Text → Bool → Step
  to_sweep : ℕ → Step
  to_render : Step

unfoldable pub apply : (Text → Text) → Step → Onscreen → Onscreen
apply render (to_show c) o = show c o
apply render (to_show_for now c dur) o = show_for now c dur o
apply render to_hide o = hide o
apply render (to_set_content c) o = set_content c o
apply render (to_set_state c b) o = set_state c b o
apply render (to_sweep now) o = sweep now o
apply render to_render o = rendered_content render o

unfoldable pub apply_all : (Text → Text) → List Step → Onscreen → Onscreen
apply_all render [] o = o
apply_all render (s ∷ ss) o = apply_all render ss (apply render s o)
