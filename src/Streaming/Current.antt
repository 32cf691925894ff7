-- ===== src/Streaming/Current.antt =====
-- The poller: what its readers and the event bus are told.
use tripbot.Base.{
  subst, ◌≡◌, refl, sym, ◌∙◌, ap, inl, inr, Bool, true, false, ℕ, ◌+◌, Option, none, some, List, [],
  ◌∷◌, ◌++◌, arith, Bool-cases, if◌then◌else◌,
}
use tripbot.Watchdog.{StreamState}
use tripbot.Streaming.{
  Cache, fresh, forget, stream_state_from, Event, closed, canceled, pushed, ticked, Effect, gauge,
  emit, wait, open_still, gone, stopped, Outcome, on_event, consume, Attempt, poll, reconnect_wait,
  go_on, run, last_stream_state,
}

-- The last state that was read on a connection, after an earlier one.
abbrev latest : Option StreamState → List Event → Option StreamState
latest before [] = before
latest before (ticked (some r) ∷ es) = latest (some (stream_state_from r)) es
latest before (e ∷ es) = latest before es

abbrev ends : Event → Bool
ends closed = true
ends canceled = true
ends (ticked none) = true
ends _ = false

abbrev is_open : List Event → Bool
is_open [] = true
is_open (e ∷ es) = let rest = is_open es in if ends e then false else rest

-- The context is canceled before the connection drops.
abbrev is_stopped : List Event → Bool
is_stopped [] = false
is_stopped (canceled ∷ es) = true
is_stopped (e ∷ es) = let rest = is_stopped es in if ends e then false else rest

-- The last state read on the connection that is open, if one is open and a read was served on it.
abbrev pub current : List Attempt → Option StreamState
current [] = none
current (a ∷ attempts) =
    let later = current attempts in
    if a.dials
    then (if is_open a.events
        then latest none a.events
        else (if is_stopped a.events then none else later))
    else later

-- The last value on the event bus, after the one that it held before.
abbrev pub heard : Option StreamState → List Effect → Option StreamState
heard before [] = before
heard before (emit st ∷ es) = heard st es
heard before (e ∷ es) = heard before es

heard-append :
    (before : Option StreamState) (es fs : List Effect)
    → heard before (es ++ fs) ≡ heard (heard before es) fs
heard-append before [] fs = refl
heard-append before (emit st ∷ es) fs = heard-append st es fs
heard-append before (gauge b ∷ es) fs = heard-append before es fs
heard-append before (wait n ∷ es) fs = heard-append before es fs

-- Cache and bus agree after a pass, and the standing is the events'.
abbrev Agrees : Option StreamState → List Event → Outcome → Type 0
Agrees before es (c, out, st) =
    (last_stream_state c ≡ (if is_open es then latest before es else none))
    × (heard before out ≡ (if is_open es then latest before es else none))
    × (st ≡ (if is_open es then open_still else (if is_stopped es then stopped else gone true)))

consume-Agrees : (c : Cache) (es : List Event) → Agrees (last_stream_state c) es (consume c es)
unfolding consume on_event last_stream_state
consume-Agrees c [] = (refl, refl, refl)
consume-Agrees c (closed ∷ es) = (refl, refl, refl)
consume-Agrees c (canceled ∷ es) = (refl, refl, refl)
consume-Agrees c (pushed none ∷ es) = consume-Agrees c es
consume-Agrees c (pushed (some a) ∷ es) = consume-Agrees c es
consume-Agrees c (ticked none ∷ es) = (refl, refl, refl)
consume-Agrees c (ticked (some r) ∷ es) =
    consume-Agrees (record c { state = stream_state_from r; known = true }) es

-- What the readers and the bus are told is the state.
abbrev Tells : Option StreamState → Cache × List Effect → Type 0
Tells st (c, out) = (last_stream_state c ≡ st) × (heard none out ≡ st)

-- A pass after which they are told the state: at once, or by the passes that follow.
abbrev IsReady : Option StreamState → (ℕ → Cache → Cache × List Effect) → Outcome → Type 0
IsReady st later (c, out, gone reached) =
    (last_stream_state c ≡ none)
    × (heard none out ≡ none)
    × ((n : ℕ) (c : Cache) → last_stream_state c ≡ none → Tells st (later n c))
IsReady st later (c, out, _) = Tells st (c, out)

go_on-Tells :
    (o : Outcome) (later : ℕ → Cache → Cache × List Effect) (failures : ℕ) (st : Option StreamState)
    → IsReady st later o
    → Tells st (go_on o later failures)
go_on-Tells (c, out, open_still) later failures st h = h
go_on-Tells (c, out, stopped) later failures st h = h
go_on-Tells (c, out, gone reached) later failures st (unknown, told, after) =
    let n = if reached then 0 else failures + 1 in
    let (says, hears) = after n c unknown in
    (
      says,
      heard-append none out (wait (reconnect_wait n) ∷ (later n c).1)
          ∙ ap (λ s. heard s (later n c).1) told
          ∙ hears,
    )

Agrees-IsReady :
    (es : List Event) (later : ℕ → Cache → Cache × List Effect) (st : Option StreamState)
    (o : Outcome)
    → Agrees none es o
    → ((n : ℕ) (c : Cache) → last_stream_state c ≡ none → Tells st (later n c))
    → IsReady (if is_open es then latest none es else (if is_stopped es then none else st)) later o
Agrees-IsReady es later st (c, out, open_still) (says, hears, how) after = ground arith
Agrees-IsReady es later st (c, out, stopped) (says, hears, how) after = ground arith
Agrees-IsReady es later st (c, out, gone reached) (says, hears, how) after =
    elim (Bool-cases (is_open es)) [
      | inl open' ↦ ground (arith, how, open')
      | inr shut ↦ elim (Bool-cases (is_stopped es)) [
        | inl stop ↦ ground (arith, how, shut, stop)
        | inr more ↦
            rw (shut, more) (ground (arith, says, shut), ground (arith, hears, shut), after)
      ]
    ]

run-Tells :
    (attempts : List Attempt) (failures : ℕ) (c : Cache)
    → last_stream_state c ≡ none
    → Tells (current attempts) (run attempts failures c)
unfolding run last_stream_state
run-Tells [] failures c h = (h, refl)
run-Tells (a ∷ attempts) failures c h =
    let later = run-Tells attempts in
    elim (Bool-cases a.dials) [
      | inl dials ↦
          rw (dials, poll)
            (go_on-Tells (consume c a.events) (run attempts) failures _ (
              Agrees-IsReady a.events (run attempts) (current attempts) (consume c a.events)
                (subst (λ st. Agrees st a.events (consume c a.events)) h
                  (consume-Agrees c a.events))
                later))
      | inr fails ↦
          rw (fails, poll)
            (go_on-Tells (forget c, gauge false ∷ emit none ∷ [], gone false) (run attempts)
              failures (current attempts) (refl, refl, later))
    ]

-- Whether the process has sent a message at all.
abbrev pub emits : List Effect → Bool
emits [] = false
emits (emit st ∷ es) = true
emits (e ∷ es) = emits es

quiet_none : (es : List Effect) → emits es ≡ false → heard none es ≡ none
quiet_none [] h = refl
quiet_none (emit st ∷ es) h = ground (arith, h)
quiet_none (gauge b ∷ es) h = quiet_none es h
quiet_none (wait n ∷ es) h = quiet_none es h

-- A message replaces what the bus held; without one, that stays.
heard-emits :
    (held before : Option StreamState) (es : List Effect)
    → heard held es ≡ (if emits es then heard before es else held)
heard-emits held before [] = refl
heard-emits held before (emit st ∷ es) = refl
heard-emits held before (gauge b ∷ es) = heard-emits held before es
heard-emits held before (wait n ∷ es) = heard-emits held before es

-- From the start, after any passes and up to any event: `LastStreamState` gives the last state that was
-- read on the connection which is open now, and unreachable if none is open or nothing was read on it
-- yet. So does the last value on the event bus, once the process has sent one; before that, when it
-- has not read a state either, the bus keeps what it held.
pub run-current :
    (attempts : List Attempt) (held : Option StreamState)
    → let (c, out) = run attempts 0 fresh in
      (last_stream_state c ≡ current attempts)
      × (heard held out ≡ (if emits out then current attempts else held))
      × (emits out ≡ false → current attempts ≡ none)
unfolding last_stream_state
run-current attempts held =
    let (says, hears) = run-Tells attempts 0 fresh refl in
    let out = (run attempts 0 fresh).1 in
    (
      says,
      heard-emits held none out ∙ ap (λ s. if emits out then s else held) hears,
      λ quiet. sym hears ∙ quiet_none out quiet,
    )
