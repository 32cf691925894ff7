-- ===== src/Beds/Requests.antt =====
-- beds.go: the requested switches. A switch waits as the pending one and in a timer's callback; a
-- callback runs whenever it gets the lock, also after it was superseded, since `Stop` may come too
-- late.
use tripbot.Base.{
  ℕ, zero, suc, ◌+◌, ◌%◌, ◌^◌, not, ◌&&◌, Option, none, some, List, [], ◌∷◌, Text, same_text, ◌==◌,
  if◌then◌else◌,
}
use tripbot.Beds.Paths.{valid_voicing}
use tripbot.Beds.Stations.{default_station, selectable_station}
use tripbot.Beds.Store.{
  Bed, radio, carhum, album, Switch, Timer, World, Config, Env, unknown_bed, unknown_station,
  unknown_voicing, no_station, Outcome, apply_pending,
}

-- `gen` is a uint64.
abbrev pub gen_modulus : ℕ
gen_modulus = 2 ^ 64

abbrev pub next_gen : ℕ → ℕ
next_gen gen = (gen + 1) % gen_modulus

abbrev pub without : ℕ → List Timer → List Timer
without gen [] = []
without gen ((g, sw) ∷ ts) = let rest = without gen ts in if g == gen then rest else (g, sw) ∷ rest

-- `s.timer.Stop()`.
unfoldable pub stop : Option ℕ → Env → List Timer → List Timer
stop none e ts = ts
stop (some gen) e ts = if e.stops then without gen ts else ts

unfoldable pub schedule : Config → Env → Switch → World → Outcome
unfolding stop
schedule c e sw w =
    let held = record sw { at = some (e.now + c.switch_delay) } in
    let gen = next_gen w.store.gen in
    if c.switch_delay == 0 then apply_pending c e sw w.store.gen w else (
      record w {
        store = record w.store { gen = gen; pending = some held; timer = some gen };
        timers = (gen, held) ∷ stop w.store.timer e w.timers;
      },
      none,
      [],
    )

abbrev pub switch_to : Bed → Text → Text → Switch
switch_to bed station voicing = record {
  bed = bed;
  station = station;
  voicing = voicing;
  at = none;
}

-- The station that `Set` tunes the radio to: a private one is never put on air by a selection.
abbrev pub tuned : Config → Text → Text
tuned c station =
    if selectable_station c.stations station then station else default_station c.stations

unfoldable pub set : Config → Env → Bed → World → Outcome
unfolding schedule
set c e radio w =
    let station = tuned c w.store.station in
    if not (selectable_station c.stations w.store.station) && same_text station []
    then (w, some no_station, [])
    else schedule c e (switch_to radio station w.store.voicing) w
set c e carhum w = schedule c e (switch_to carhum w.store.station w.store.voicing) w
set c e album w = (w, some unknown_bed, [])

unfoldable pub set_station : Config → Env → Text → World → Outcome
unfolding schedule
set_station c e station w =
    if selectable_station c.stations station
    then schedule c e (switch_to radio station w.store.voicing) w
    else (w, some unknown_station, [])

unfoldable pub set_voicing : Config → Env → Text → World → Outcome
unfolding schedule
set_voicing c e voicing w =
    if valid_voicing voicing
    then schedule c e (switch_to carhum w.store.station voicing) w
    else (w, some unknown_voicing, [])

abbrev pub land : Config → Env → World → Option Switch → Outcome
land c e w none = (w, none, [])
land c e w (some sw) =
    let gen = next_gen w.store.gen in
    apply_pending c e sw gen
      (record w { store = record w.store { gen = gen }; timers = stop w.store.timer e w.timers })

-- `ApplyNow`, from taking the pending switch to the answer of OBS, with nothing in between.
unfoldable pub apply_now : Config → Env → World → Outcome
unfolding stop
apply_now c e w = land c e w w.store.pending

abbrev pub timer_at : List Timer → ℕ → Option Timer
timer_at [] i = none
timer_at (t ∷ ts) zero = some t
timer_at (t ∷ ts) (suc i) = timer_at ts i

abbrev pub without_timer : List Timer → ℕ → List Timer
without_timer [] i = []
without_timer (t ∷ ts) zero = ts
without_timer (t ∷ ts) (suc i) = t ∷ without_timer ts i

-- The timer's closure, its stale check and its switch with nothing in between.
abbrev pub callback : Config → Env → World → Option Timer → Outcome
callback c e w none = (w, none, [])
callback c e w (some (gen, sw)) =
    if gen == w.store.gen then apply_pending c e sw gen w else (w, none, [])

-- The i-th waiting callback runs.
unfoldable pub fire : Config → Env → ℕ → World → Outcome
fire c e i w = callback c e (record w { timers = without_timer w.timers i }) (timer_at w.timers i)
