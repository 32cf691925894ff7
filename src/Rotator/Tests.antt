-- ===== src/Rotator/Tests.antt =====
-- The rotator on concrete lines, and the theorems at them.
use tripbot.Base.Int.{pos, negsuc}
use tripbot.Base.{Text, ℕ, ◌≡◌, refl, Bool, true, [], ◌∷◌, arith, ◌-◌}
use tripbot.Rotator.{Message, expand, pick, commands_in, variables_in, pieces}
use tripbot.Rotator.Tokens.{AllEmpty}
use tripbot.Rotator.Pick.{CanShow, Shown, pick-Shown}

-- "see !map or !x $a"
abbrev line : Text
line = b's' ∷ b'!' ∷ b'm' ∷ b'a' ∷ b' ' ∷ b'!' ∷ b' ' ∷ b'!' ∷ b'x' ∷ b'$' ∷ b'a' ∷ []

commands_of_line : commands_in line ≡ (b'm' ∷ b'a' ∷ []) ∷ (b'x' ∷ []) ∷ []
unfolding commands_in pieces
commands_of_line = refl

variables_of_line : variables_in line ≡ (b'a' ∷ []) ∷ []
unfolding variables_in pieces
variables_of_line = refl

expanded_line : expand ((b'a' ∷ [], b'5' ∷ []) ∷ []) (b'$' ∷ b'a' ∷ b'!' ∷ []) ≡ b'5' ∷ b'!' ∷ []
unfolding expand pieces
expanded_line = refl

no_values : AllEmpty []
no_values name = refl

abbrev heavy : Message
heavy = record { text = line; platforms = []; weight = pos 3 }

abbrev light : Message
light = record { text = b'h' ∷ []; platforms = []; weight = negsuc 1 }

abbrev any : Message → Bool
any m = true

-- The last number below the bound.
abbrev last_draw : ℕ → ℕ
last_draw n = n - 1

pick-Shown_example :
    let shown = pick last_draw [] (heavy ∷ light ∷ []) ((b'x' ∷ []) ∷ []) [] in
    (CanShow [] ((b'x' ∷ []) ∷ []) [] (heavy ∷ light ∷ [])
      → Shown [] ((b'x' ∷ []) ∷ []) [] (heavy ∷ light ∷ []) shown)
    × (¬ CanShow [] ((b'x' ∷ []) ∷ []) [] (heavy ∷ light ∷ [])
        → CanShow [] [] [] (heavy ∷ light ∷ [])
        → Shown [] [] [] (heavy ∷ light ∷ []) shown)
    × (¬ CanShow [] [] [] (heavy ∷ light ∷ []) → shown ≡ [])
pick-Shown_example =
    pick-Shown last_draw [] (heavy ∷ light ∷ []) ((b'x' ∷ []) ∷ []) [] (λ n h. omega (arith, h))
