-- ===== src/Playback/States.antt =====
-- How !jump reads a state's name.
use mathlib.Core.List.{append_assoc, append-nil}
use tripbot.Base.{
  ◌≡◌, refl, ◌∙◌, sym, ap, inl, inr, ℕ, true, false, ◌||◌, List, [], ◌∷◌, ◌++◌, All, All-append,
  arith, Bool-cases, Text,
}
use tripbot.Playback.Input.{
  is_space, is_letter, state_chars, onto_word, fields, join, normalize_state_input,
}

abbrev pub AllLetters : Text → Type 0
AllLetters w = All (λ c. is_letter c ≡ true) w

-- Letters, one or more.
abbrev pub IsWord : Text → Type 0
IsWord [] = ⊥
IsWord (c ∷ w) = (is_letter c ≡ true) × AllLetters w

abbrev IsName : Text → Type 0
IsName s = All (λ c. (is_letter c || is_space c) ≡ true) s

letter-not-space : (c : ℕ) → is_letter c ≡ true → is_space c ≡ false
letter-not-space c h = ground (arith, h)

state_chars-IsName : (s : Text) → IsName (state_chars s)
unfolding state_chars
state_chars-IsName [] = tt
state_chars-IsName (c ∷ s) = elim (Bool-cases (is_letter c || is_space c)) [
  | inl kept ↦ rw (state_chars, kept) (kept, state_chars-IsName s)
  | inr dropped ↦ rw (state_chars, dropped) (state_chars-IsName s)
]

state_chars_of_IsName : (s : Text) → IsName s → state_chars s ≡ s
unfolding state_chars
state_chars_of_IsName [] h = refl
state_chars_of_IsName (c ∷ s) h = rw (h.0, state_chars_of_IsName s h.1) refl

onto_word-All :
    (w : Text) (ws : List Text) → AllLetters w → All IsWord ws → All IsWord (onto_word w ws)
onto_word-All [] ws h all = all
onto_word-All (c ∷ w) ws h all = (h, all)

fields-All : (w s : Text) → AllLetters w → IsName s → All IsWord (fields w s)
unfolding fields
fields-All w [] h name = onto_word-All w [] h tt
fields-All w (c ∷ s) h name = elim (Bool-cases (is_space c)) [
  | inl space ↦ rw (fields, space) (onto_word-All w (fields [] s) h (fields-All [] s tt name.1))
  | inr other ↦
      rw (fields, other)
        (fields-All (w ++ c ∷ []) s
          (All-append (λ d. is_letter d ≡ true) w (c ∷ []) h (ground (arith, name.0, other), tt))
          name.1)
]

fields-append : (w v s : Text) → AllLetters v → fields w (v ++ s) ≡ fields (w ++ v) s
unfolding fields
fields-append w [] s h = ap (λ u. fields u s) (sym (append-nil w))
fields-append w (c ∷ v) s h =
    rw (letter-not-space c h.0)
      (fields-append (w ++ c ∷ []) v s h.1 ∙ ap (λ u. fields u s) (append_assoc w (c ∷ []) v))

onto_word_of_IsWord : (w : Text) (ws : List Text) → IsWord w → onto_word w ws ≡ w ∷ ws
onto_word_of_IsWord [] ws h = absurd h
onto_word_of_IsWord (c ∷ w) ws h = refl

IsWord-AllLetters : (w : Text) → IsWord w → AllLetters w
IsWord-AllLetters [] h = tt
IsWord-AllLetters (c ∷ w) h = h

-- The words come back from the text that joins them.
fields-join : (ws : List Text) → All IsWord ws → fields [] (join ws) ≡ ws
unfolding fields join
fields-join [] h = refl
fields-join (w ∷ []) h =
    ap (fields []) (sym (append-nil w))
    ∙ fields-append [] w [] (IsWord-AllLetters w h.0)
    ∙ onto_word_of_IsWord w [] h.0
fields-join (w ∷ v ∷ ws) h =
    fields-append [] w (32 ∷ join (v ∷ ws)) (IsWord-AllLetters w h.0)
    ∙ onto_word_of_IsWord w (fields [] (join (v ∷ ws))) h.0
    ∙ ap (◌∷◌ w) (fields-join (v ∷ ws) h.1)

letters-IsName : (w : Text) → AllLetters w → IsName w
letters-IsName [] h = tt
letters-IsName (c ∷ w) h = (ground (arith, h.0), letters-IsName w h.1)

join-IsName : (ws : List Text) → All IsWord ws → IsName (join ws)
unfolding join
join-IsName [] h = tt
join-IsName (w ∷ []) h = letters-IsName w (IsWord-AllLetters w h.0)
join-IsName (w ∷ v ∷ ws) h =
    All-append (λ c. (is_letter c || is_space c) ≡ true) w (32 ∷ join (v ∷ ws))
      (letters-IsName w (IsWord-AllLetters w h.0)) (refl, join-IsName (v ∷ ws) h.1)

-- A name that is read is words of ASCII letters with one space between them, whatever was typed, and
-- reading it again changes nothing.
pub normalize_idempotent :
    (s : Text)
    → (ws : List Text) × All IsWord ws
      × (normalize_state_input s ≡ join ws)
      × (normalize_state_input (normalize_state_input s) ≡ normalize_state_input s)
unfolding normalize_state_input
normalize_idempotent s =
    let ws = fields [] (state_chars s) in
    let words = fields-All [] (state_chars s) tt (state_chars-IsName s) in
    (
      ws,
      words,
      refl,
      ap (λ t. join (fields [] t)) (state_chars_of_IsName (join ws) (join-IsName ws words))
          ∙ ap join (fields-join ws words),
    )
