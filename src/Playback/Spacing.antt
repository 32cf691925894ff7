-- ===== src/Playback/Spacing.antt =====
-- The rate limit that the playback commands share.
use tripbot.Base.{
  ◌≡◌, refl, ◌∙◌, sym, subst, inl, inr, ◌≤◌, ℕ, ◌+◌, Bool, true, false, none, some, List, [], ◌∷◌,
  All, arith, Bool-cases, if◌then◌else◌,
}
use tripbot.Clock.{Time, since}
use tripbot.Playback.{
  Env, Place, Clip, Query, Effect, play_random, play_file, skip_one, back_one, seek, play_at,
  refresh, Outcome, rest_time, Command, timewarps, warped, operated, operator_find, jumps, daytimes,
  seeks, finds, perform, too_soon, guarded, timewarp_cmd, jump_cmd, daytime_cmd, seek_cmd, find_cmd,
  no_params, unusable, unknown_state, state, no_query, state_name, missed, down, hit,
}

abbrev is_call : Effect → Bool
is_call play_random = true
is_call play_file = true
is_call skip_one = true
is_call back_one = true
is_call (seek x) = true
is_call play_at = true
is_call _ = false

abbrev is_refresh : Effect → Bool
is_refresh refresh = true
is_refresh _ = false

abbrev some_effect : (Effect → Bool) → List Effect → Bool
some_effect p [] = false
some_effect p (e ∷ es) = let rest = some_effect p es in if p e then true else rest

-- Playout is called, and the playhead is taken to have moved.
abbrev pub calls_playout : List Effect → Bool
calls_playout = some_effect is_call

abbrev pub moved : List Effect → Bool
moved = some_effect is_refresh

abbrev pub is_exempt : Command → Bool
is_exempt warped = true
is_exempt (operated q) = true
is_exempt _ = false

guarded_rested :
    (e : Env) (last : Time) (body : Outcome)
    → calls_playout (guarded e last body).0 ≡ true
    → too_soon e last ≡ false
unfolding guarded
guarded_rested e last body h = ground (arith, h)

-- A command reaches playout only when the last jump is long enough ago.
perform_rested :
    (e : Env) (last : Time) (c : Command)
    → is_exempt c ≡ false
    → calls_playout (perform e last c).0 ≡ true
    → too_soon e last ≡ false
unfolding perform timewarp_cmd jump_cmd daytime_cmd seek_cmd find_cmd
perform_rested e last timewarps k h = guarded_rested e last _ h
perform_rested e last warped k h = ground (arith, k)
perform_rested e last (operated q) k h = ground (arith, k)
perform_rested e last (jumps place c) k h = guarded_rested e last _ h
perform_rested e last (daytimes c) k h = guarded_rested e last _ h
perform_rested e last (seeks dir s) k h = guarded_rested e last _ h
perform_rested e last (finds q) k h = guarded_rested e last _ h

-- The time of the last jump is stamped exactly when the playhead is taken to have moved.
abbrev IsStamped : Env → Time → Outcome → Type 0
IsStamped e last (es, at) = at ≡ (if moved es then some e.stamped_at else last)

guarded-IsStamped :
    (e : Env) (last : Time) (body : Outcome)
    → IsStamped e last body
    → IsStamped e last (guarded e last body)
unfolding guarded
guarded-IsStamped e last body h = ground (arith, h)

jump_cmd-IsStamped :
    (e : Env) (last : Time) (p : Place) (c : Clip) → IsStamped e last (jump_cmd e last p c)
unfolding jump_cmd
jump_cmd-IsStamped e last no_params c = guarded-IsStamped e last _ refl
jump_cmd-IsStamped e last unusable c = guarded-IsStamped e last _ refl
jump_cmd-IsStamped e last unknown_state c = guarded-IsStamped e last _ refl
jump_cmd-IsStamped e last state c = guarded-IsStamped e last _ (ground arith)

find_for-IsStamped : (e : Env) (last : Time) (q : Query) → IsStamped e last (find_cmd e last q)
unfolding find_cmd
find_for-IsStamped e last no_query = guarded-IsStamped e last _ refl
find_for-IsStamped e last (state_name p c) =
    guarded-IsStamped e last _ (jump_cmd-IsStamped e last p c)
find_for-IsStamped e last missed = guarded-IsStamped e last _ refl
find_for-IsStamped e last down = guarded-IsStamped e last _ refl
find_for-IsStamped e last hit = guarded-IsStamped e last _ (ground arith)

perform-IsStamped : (e : Env) (last : Time) (c : Command) → IsStamped e last (perform e last c)
unfolding perform timewarp_cmd daytime_cmd seek_cmd operator_find
perform-IsStamped e last timewarps = guarded-IsStamped e last _ (ground arith)
perform-IsStamped e last warped = refl
perform-IsStamped e last (operated hit) = ground arith
perform-IsStamped e last (operated no_query) = refl
perform-IsStamped e last (operated (state_name p c)) = refl
perform-IsStamped e last (operated missed) = refl
perform-IsStamped e last (operated down) = refl
perform-IsStamped e last (jumps p c) = jump_cmd-IsStamped e last p c
perform-IsStamped e last (daytimes c) = guarded-IsStamped e last _ (ground arith)
perform-IsStamped e last (seeks dir s) = guarded-IsStamped e last _ (ground arith)
perform-IsStamped e last (finds q) = find_for-IsStamped e last q

-- The time of the last jump after a run, and the stamps of the jumps in it.
abbrev pub after : Time → List (Env × Command) → Time
after last [] = last
after last ((e, c) ∷ cs) = after (perform e last c).1 cs

abbrev pub stamps : Time → List (Env × Command) → List ℕ
stamps last [] = []
stamps last ((e, c) ∷ cs) =
    let rest = stamps (perform e last c).1 cs in
    if moved (perform e last c).0 then e.stamped_at ∷ rest else rest

-- The clock runs forwards from `prev` on.
abbrev pub IsForward : ℕ → List (Env × Command) → Type 0
IsForward prev [] = Unit
IsForward prev ((e, c) ∷ cs) = (prev ≤ e.stamped_at) × IsForward e.stamped_at cs

-- A time that is no later than the last jump.
abbrev IsBefore : Time → ℕ → Type 0
IsBefore none s = ⊥
IsBefore (some t) s = s ≤ t

-- The last jump, if there is one, is no later than `prev`.
abbrev IsPast : ℕ → Time → Type 0
IsPast prev none = Unit
IsPast prev (some t) = t ≤ prev

stamped-IsPast :
    (b : Bool) (prev now : ℕ) (last : Time)
    → prev ≤ now
    → IsPast prev last
    → IsPast now (if b then some now else last)
stamped-IsPast true prev now last le h = omega arith
stamped-IsPast false prev now none le h = tt
stamped-IsPast false prev now (some t) le h = omega (arith, le, h)

stamped-IsBefore :
    (b : Bool) (prev now : ℕ) (last : Time) (s : ℕ)
    → prev ≤ now
    → IsPast prev last
    → IsBefore last s
    → IsBefore (if b then some now else last) s
stamped-IsBefore b prev now none s le past h = absurd h
stamped-IsBefore true prev now (some t) s le past h = omega (arith, le, past, h)
stamped-IsBefore false prev now (some t) s le past h = h

perform-IsPast :
    (prev : ℕ) (e : Env) (last : Time) (c : Command)
    → prev ≤ e.stamped_at
    → IsPast prev last
    → IsPast e.stamped_at (perform e last c).1
perform-IsPast prev e last c le h =
    subst (IsPast e.stamped_at) (sym (perform-IsStamped e last c))
      (stamped-IsPast (moved (perform e last c).0) prev e.stamped_at last le h)

perform-IsBefore :
    (prev : ℕ) (e : Env) (last : Time) (c : Command) (s : ℕ)
    → prev ≤ e.stamped_at
    → IsPast prev last
    → IsBefore last s
    → IsBefore (perform e last c).1 s
perform-IsBefore prev e last c s le past h =
    subst (λ t. IsBefore t s) (sym (perform-IsStamped e last c))
      (stamped-IsBefore (moved (perform e last c).0) prev e.stamped_at last s le past h)

after-IsBefore :
    (prev : ℕ) (last : Time) (cs : List (Env × Command)) (s : ℕ)
    → IsForward prev cs
    → IsPast prev last
    → IsBefore last s
    → IsBefore (after last cs) s
after-IsBefore prev last [] s forward past h = h
after-IsBefore prev last ((e, c) ∷ cs) s forward past h =
    after-IsBefore e.stamped_at (perform e last c).1 cs s forward.1
      (perform-IsPast prev e last c forward.0 past)
      (perform-IsBefore prev e last c s forward.0 past h)

after-stamps :
    (prev : ℕ) (last : Time) (cs : List (Env × Command))
    → IsForward prev cs
    → IsPast prev last
    → All (IsBefore (after last cs)) (stamps last cs)
after-stamps prev last [] forward past = tt
after-stamps prev last ((e, c) ∷ cs) forward past =
    let past' = perform-IsPast prev e last c forward.0 past in
    let rest = after-stamps e.stamped_at (perform e last c).1 cs forward.1 past' in
    elim (Bool-cases (moved (perform e last c).0)) [
      | inr stays ↦ rw stays rest
      | inl moves ↦
          let now : (perform e last c).1 ≡ some e.stamped_at =
            perform-IsStamped e last c ∙ rw moves refl in
          rw moves (
            after-IsBefore e.stamped_at (perform e last c).1 cs e.stamped_at forward.1 past'
                (subst (λ t. IsBefore t e.stamped_at) (sym now) (omega arith)),
            rest,
          )
    ]

rested_since :
    (e : Env) (last : Time) (ss : List ℕ)
    → e.broadcaster ≡ false
    → too_soon e last ≡ false
    → All (IsBefore last) ss
    → All (λ s. s + rest_time ≤ e.checked_at) ss
unfolding too_soon since
rested_since e last [] v h all = tt
rested_since e none (s ∷ ss) v h all = absurd all.0
rested_since e (some t) (s ∷ ss) v h all =
    (ground (arith, v, h, all.0), rested_since e (some t) ss v h all.1)

-- Over any commands, from the start: a playback command of a viewer that reaches playout is checked
-- twenty seconds or more after every jump before it, whoever made that jump, a guess, a gift and an
-- operator's search included. The clock runs forwards. Those three are not themselves held back.
pub jumps_spaced :
    (cs : List (Env × Command)) (e : Env) (c : Command)
    → IsForward 0 cs
    → is_exempt c ≡ false
    → e.broadcaster ≡ false
    → calls_playout (perform e (after none cs) c).0 ≡ true
    → All (λ s. s + rest_time ≤ e.checked_at) (stamps none cs)
jumps_spaced cs e c forward k v calls =
    rested_since e (after none cs) (stamps none cs) v (perform_rested e (after none cs) c k calls)
      (after-stamps 0 none cs forward tt)
