-- ===== src/Corners/Lines.antt =====
-- The line that one tick of a corner puts up.
use tripbot.Base.{
  Text, codes, OneOf, subst, ◌≡◌, ◌≢◌, refl, inl, inr, ℕ, ◌<◌, Bool, true, false, not, ◌&&◌, Option,
  List, [], ◌∷◌, arith, Bool-cases, ◌==◌,
}
use tripbot.Rotator.{
  Vars, Message, is_empty, value, variables_in, resolvable, expand, pick, commands_in, pieces,
}
use tripbot.Rotator.Fits.{Fits}
use tripbot.Rotator.Pick.{CanShow, Shown, CanShow-or, pick-Shown}
use tripbot.Corners.{
  ServerConfig, Rotator, Draws, left_live_line, right_live_line, pool, sibling_commands, takes_rare,
  content,
}

-- A line that a corner may put up: the easter egg, a line that shares no command with the sibling's,
-- any line that can be filled in when there is none of those, and nothing when there is none at all.
pub data Line (cfg : ServerConfig) (vars : Vars) (sibling : Option Text) (r : Rotator)
    : Text → Type 0 where
  rare :
      r.copy.rare_message ≢ []
      → resolvable vars r.copy.rare_message ≡ true
      → Line cfg vars sibling r (expand vars r.copy.rare_message)
  apart :
      (line : Text)
      → Shown cfg.platform (sibling_commands sibling) vars (pool cfg r) line
      → Line cfg vars sibling r line
  any :
      (line : Text)
      → ¬ CanShow cfg.platform (sibling_commands sibling) vars (pool cfg r)
      → Shown cfg.platform [] vars (pool cfg r) line
      → Line cfg vars sibling r line
  nothing : ¬ CanShow cfg.platform [] vars (pool cfg r) → Line cfg vars sibling r []

-- `rand.Intn`.
abbrev pub IsDraw : (ℕ → ℕ) → Type 0
IsDraw f = (n : ℕ) → 0 < n → f n < n

not_empty : (t : Text) → is_empty t ≡ false → t ≢ []
not_empty [] h = ground (arith, h)
not_empty (c ∷ cs) h = λ e. ground (arith, e)

empty_false : (t : Text) → t ≢ [] → is_empty t ≡ false
empty_false [] h = absurd (h refl)
empty_false (c ∷ cs) h = refl

lucky_is :
    (blank known drawn : Bool)
    → (not blank && known && drawn) ≡ true
    → (blank ≡ false) × (known ≡ true)
lucky_is blank known drawn h = (ground (arith, h), ground (arith, h))

pub content-Line :
    (cfg : ServerConfig) (d : Draws) (vars : Vars) (sibling : Option Text) (r : Rotator)
    → IsDraw d.line
    → Line cfg vars sibling r (content cfg d vars sibling r)
unfolding content
content-Line cfg d vars sibling r low =
    let commands = sibling_commands sibling in
    let ms = pool cfg r in
    let line = pick d.line cfg.platform ms commands vars in
    let (strict, loose, blank) = pick-Shown d.line cfg.platform ms commands vars low in
    elim (Bool-cases (takes_rare d vars r)) [
      | inl lucky ↦
          let (some_rare, known) =
            lucky_is (is_empty r.copy.rare_message) (resolvable vars r.copy.rare_message)
              (d.rare 10000 == 0) lucky in
          rw (content, lucky) (rare (not_empty r.copy.rare_message some_rare) known)
      | inr unlucky ↦
          rw (content, unlucky)
            (elim (CanShow-or cfg.platform commands vars ms) [
              | inl some_fit ↦ apart line (strict some_fit)
              | inr none_fit ↦ elim (CanShow-or cfg.platform [] vars ms) [
                | inl some_left ↦ any line none_fit (loose none_fit some_left)
                | inr none_left ↦ rw (blank none_left) (nothing none_left)
              ]
            ])
    ]

-- A line without platforms or commands, whose one variable has a value, fits everywhere.
one_variable-Fits :
    (platform : Text) (exclude : List Text) (vars : Vars) (m : Message) (name : Text)
    → m.platforms ≡ []
    → commands_in m.text ≡ []
    → variables_in m.text ≡ name ∷ []
    → value vars name ≢ []
    → Fits platform exclude vars m
one_variable-Fits platform exclude vars m name p c v known = record {
  applies = inl p;
  apart = λ t h k. subst (λ ts. OneOf t ts) c h;
  filled = λ t h. elim (subst (λ ts. OneOf t ts) v h) [
    | inl e ↦ subst (λ x. value vars x ≢ []) e known
    | inr gone ↦ absurd gone
  ];
}

-- The live lines fit whenever their variable has a value.
pub left_live-Fits :
    (platform : Text) (exclude : List Text) (vars : Vars)
    → value vars (codes "location") ≢ []
    → Fits platform exclude vars left_live_line
unfolding commands_in variables_in pieces
left_live-Fits platform exclude vars known =
    one_variable-Fits platform exclude vars left_live_line (codes "location") refl refl refl known

pub right_live-Fits :
    (platform : Text) (exclude : List Text) (vars : Vars)
    → value vars (codes "date") ≢ []
    → Fits platform exclude vars right_live_line
unfolding commands_in variables_in pieces
right_live-Fits platform exclude vars known =
    one_variable-Fits platform exclude vars right_live_line (codes "date") refl refl refl known
