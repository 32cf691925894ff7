-- ===== src/Audio.antt =====
-- pkg/obs/audiowatchdog/audiowatchdog.go, Watch: one tick of the loop as a function on the loop's
-- variables, and the loop as a fold over the ticks. What the dependencies answer on a tick is the
-- tick's data; the calls that leave the loop are its list of effects. Levels are floats, which are
-- only compared: their type `Db` and its `≤` are parameters.
pub mod Backoff
pub mod Swaps
pub mod Outage
pub mod Return
mod Tests
use tripbot.Base.{
  ℕ, ◌+◌, ◌*◌, Bool, true, false, Option, none, some, List, [], ◌∷◌, ◌++◌, ◌&&◌, ◌||◌, ltb, leb,
  not, min, if◌then◌else◌,
}
use tripbot.Clock.{Time, since}

-- The media states that pkg/obs names, and any other.
pub data MediaState : Type 0 where
  playing ended stopped error absent other : MediaState

-- `obs.MediaStateDown`.
abbrev pub media_state_down : MediaState → Bool
media_state_down ended = true
media_state_down stopped = true
media_state_down error = true
media_state_down absent = true
media_state_down playing = false
media_state_down other = false

pub record Config (Db : Type 0) : Type 0 where
  pub fail_threshold : ℕ
  pub silence_threshold : ℕ
  pub recover_threshold : ℕ
  pub silence_db : Db
  pub cooldown : ℕ

-- What one tick reads: the meter's level and its freshness, the media state and whether the source
-- is a local file (`none` when OBS does not answer), whether the radio is the selected bed, the
-- clock before and after a swap, whether the radio is reachable, and whether a swap and an advance
-- of the album succeed. The answers that a tick does not ask for are not used.
pub record Tick (Db : Type 0) : Type 0 where
  pub level : Db
  pub fresh : Bool
  pub media : Option MediaState
  pub radio_selected : Bool
  pub local : Option Bool
  pub now : ℕ
  pub reachable : Bool
  pub swap_ok : Bool
  pub advance_ok : Bool
  pub swapped_at : ℕ

pub record State : Type 0 where
  pub fail_misses : ℕ
  pub recover_hits : ℕ
  pub last_swap : Time
  pub synced : Bool
  pub probe_skip : ℕ
  pub skipped : ℕ

-- `set_` effects write a gauge; the others call a dependency, with its result.
pub data Effect (Db : Type 0) : Type 0 where
  set_level : Db → Effect Db
  resync : Effect Db
  set_playing : Bool → Effect Db
  set_on_fallback : Bool → Effect Db
  swap_to_fallback : Bool → Effect Db
  swap_to_radio : Bool → Effect Db
  advance_album : Bool → Effect Db
  probe : Bool → Effect Db

abbrev pub max_probe_skip : ℕ
max_probe_skip = 31

unfoldable pub start : State
start = record {
  fail_misses = 0;
  recover_hits = 0;
  last_swap = none;
  synced = false;
  probe_skip = 0;
  skipped = 0;
}

abbrev is_playing : MediaState → Bool
is_playing playing = true
is_playing _ = false

module _ {Db : Type 0} (at_most : Db → Db → Bool) where
  -- On the radio's own source.
  on_radio : Config Db → Tick Db → MediaState → Bool → State → State × List (Effect Db)
  on_radio c t m cooling s =
      let s' = record s { probe_skip = 0; skipped = 0 } in
      let down = media_state_down m in
      let silent = t.fresh && at_most t.level c.silence_db in
      let missed = record s' { fail_misses = s'.fail_misses + 1 } in
      let threshold = if down then c.fail_threshold else c.silence_threshold in
      if not down && not silent
      then (record s' { fail_misses = 0 }, [])
      else (if ltb missed.fail_misses threshold || cooling
          then (missed, [])
          else (if t.swap_ok
              then (
                record missed { last_swap = some t.swapped_at; fail_misses = 0; recover_hits = 0 },
                swap_to_fallback true ∷ set_on_fallback true ∷ [],
              )
              else (missed, swap_to_fallback false ∷ [])))

module _ {Db : Type 0} where
  -- A probe that found the radio reachable.
  on_reachable : Config Db → Tick Db → Bool → State → State × List (Effect Db)
  on_reachable c t cooling s =
      let s' = record s { probe_skip = 0; recover_hits = s.recover_hits + 1 } in
      if ltb s'.recover_hits c.recover_threshold || cooling
      then (s', [])
      else (if t.swap_ok
          then (
            record s' { last_swap = some t.swapped_at; recover_hits = 0 },
            swap_to_radio true ∷ set_on_fallback false ∷ [],
          )
          else (s', swap_to_radio false ∷ []))

  -- The recovery probe with its backoff.
  recover : Config Db → Tick Db → Bool → State → State × List (Effect Db)
  unfolding on_reachable
  recover c t cooling s =
      let s' = record s { skipped = 0 } in
      let back = on_reachable c t cooling s' in
      if ltb s.skipped s.probe_skip
      then (record s { skipped = s.skipped + 1 }, [])
      else (if t.reachable then (back.0, probe true ∷ back.1) else (
        record s' { recover_hits = 0; probe_skip = min (2 * s'.probe_skip + 1) max_probe_skip },
        probe false ∷ [],
      ))

  -- On the local fallback.
  on_fallback : Config Db → Tick Db → MediaState → Bool → State → State × List (Effect Db)
  unfolding recover
  on_fallback c t m cooling s =
      let (s', es) = recover c t cooling s in
      (s', (if media_state_down m then advance_album t.advance_ok ∷ es else es))

module _ {Db : Type 0} (at_most : Db → Db → Bool) where
  -- The branch on where the source points.
  on_source : Config Db → Tick Db → MediaState → Option Bool → State → State × List (Effect Db)
  unfolding on_radio on_fallback since
  on_source c t m none s = (s, [])
  on_source c t m (some local) s =
      let cooling = ltb (since s.last_swap t.now) c.cooldown in
      let (s', es) =
        if local then on_fallback c t m cooling s else on_radio at_most c t m cooling s in
      (s', set_on_fallback local ∷ es)

  -- The branch on OBS's media state.
  observe : Config Db → Tick Db → Option MediaState → State → State × List (Effect Db)
  unfolding on_source
  observe c t none s = (record s { synced = false }, [])
  observe c t (some m) s =
      let s' = record s { synced = true } in
      let (s'', es) =
        if t.radio_selected
        then on_source c t m t.local s'
        else (record s' { fail_misses = 0; recover_hits = 0 }, set_on_fallback false ∷ []) in
      (s'', (if s.synced then [] else resync ∷ []) ++ set_playing (is_playing m) ∷ es)

  unfoldable pub tick : Config Db → State → Tick Db → State × List (Effect Db)
  unfolding observe
  tick c s t =
      let (s', es) = observe c t t.media s in (s', (if t.fresh then set_level t.level ∷ es else es))

  -- The loop, over the ticks until the context is canceled.
  unfoldable pub run : Config Db → State → List (Tick Db) → State × List (Effect Db)
  run c s [] = (s, [])
  run c s (t ∷ ts) = let (s', es) = tick c s t in let (s'', es') = run c s' ts in (s'', es ++ es')
