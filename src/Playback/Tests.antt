-- ===== src/Playback/Tests.antt =====
-- Playback commands of viewers and the channel's owner, with a small search.
use tripbot.Base.{
  ◌≡◌, refl, ◌⊎◌, ◌≤◌, ◌+◌, ℕ, ltb, leb, if◌then◌else◌, Bool, true, false, Option, none, some, List,
  [], ◌∷◌, All, arith, Text, codes, same_text,
}
use tripbot.Base.Int.{ℤ, pos, ◌-ℤ◌}
use tripbot.Playback.{
  Env, warped, jumps, seeks, say, seek, refresh, not_yet, backwards, state, clip, forwards, back,
  span, directed, int64_min, perform, unknown_state,
}
use tripbot.Playback.Input.{read_place, read_span, normalize_state_input, join}
use tripbot.Playback.Pick.{find_hit}
use tripbot.Playback.Spacing.{stamps, after, jumps_spaced}
use tripbot.Playback.Seeks.{InInt64, read_span-InInt64}
use tripbot.Playback.Picks.{FirstOf, find_hit-FirstOf}
use tripbot.Playback.States.{IsWord, normalize_idempotent}

abbrev at : ℕ → Env
at t = record {
  broadcaster = false;
  darwin = false;
  checked_at = t;
  stamped_at = t + 1;
  playout_ok = true;
}

-- A guess warps at 5 seconds, and a viewer's skip 15 seconds later is told to wait.
too_early :
    perform
      (at 20000000000)
      (after none ((at 5000000000, warped) ∷ []))
      (seeks forwards (span (pos 60000000000)))
    ≡ (say not_yet ∷ [], some 5000000001)
unfolding perform
too_early = refl

-- The least int64 goes back both ways.
least_goes_back :
    (perform (at 5) none (seeks back (span int64_min))).0
    ≡ seek int64_min ∷ say backwards ∷ refresh ∷ []
unfolding perform
least_goes_back = refl

abbrev read : List Text → Option ℤ
read [] = none
read (t ∷ ts) = if same_text t (codes "10") then some (pos 10) else none

abbrev duration : Text → Option ℤ
duration t = if same_text t (codes "1m") then some (pos 60000000000) else none

ten_minutes :
    read_span (λ t. t) (λ t. read (t ∷ [])) duration (codes "10" ∷ []) ≡ span (pos 600000000000)
unfolding read_span
ten_minutes = refl

spaced_name : normalize_state_input (codes " new  york!") ≡ codes "new york"
unfolding normalize_state_input
spaced_name = refl

not_a_name :
    read_place (codes "new york" ∷ []) (codes "NY" ∷ []) (codes "york" ∷ []) ≡ unknown_state
unfolding read_place
not_a_name = refl

jumps_spaced_example :
    All (λ s. s + 20000000000 ≤ 30000000000) (stamps none ((at 5000000000, warped) ∷ []))
unfolding perform
jumps_spaced_example =
    jumps_spaced ((at 5000000000, warped) ∷ []) (at 30000000000) (jumps state (clip false))
      (omega arith) refl refl refl

-- The hits as distances, in clips of one name and minutes of tens.
abbrev hits : List ℕ
hits = 5 ∷ 7 ∷ 90 ∷ 21 ∷ []

abbrev far : ℕ → Bool
far h = ltb 50 h

two_moments : find_hit far (λ h. codes "a") (λ h. if leb 20 h then 1 else 0) (λ n. 1) hits ≡ some 21
unfolding find_hit
two_moments = refl

find_hit-FirstOf_example :
    (m : ℕ) × (find_hit far (λ h. codes "a") (λ h. if leb 20 h then 1 else 0) (λ n. 0) hits
      ≡ some m)
    × (far m ≡ false)
    × FirstOf far (λ h. codes "a") (λ h. if leb 20 h then 1 else 0) m hits
find_hit-FirstOf_example =
    find_hit-FirstOf far (λ h. codes "a") (λ h. if leb 20 h then 1 else 0) (λ n. 0) 5
      (7 ∷ 90 ∷ 21 ∷ []) (λ n h. h) refl

duration_fits : (t : Text) (d : ℤ) → duration t ≡ some d → InInt64 d
duration_fits t d h = ground (arith, h)

read_span-InInt64_example :
    InInt64 (pos 60000000000)
    × InInt64 (directed back (pos 60000000000))
    × (((pos 60000000000 ≡ int64_min)
          × (directed back (pos 60000000000) ≡ directed forwards (pos 60000000000)))
        ⊎ (directed back (pos 60000000000) ≡ pos 0 -ℤ pos 60000000000))
unfolding read_span
read_span-InInt64_example =
    read_span-InInt64 (λ t. t) (λ t. read (t ∷ [])) duration (codes "1m" ∷ []) (pos 60000000000)
      duration_fits refl

normalize_idempotent_example :
    (ws : List Text) × All IsWord ws
    × (normalize_state_input (codes " ohio?") ≡ join ws)
    × (normalize_state_input (normalize_state_input (codes " ohio?"))
        ≡ normalize_state_input (codes " ohio?"))
normalize_idempotent_example = normalize_idempotent (codes " ohio?")
