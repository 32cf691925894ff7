-- ===== src/Playback/Pick.antt =====
-- find.go: pickFindHit and the test of findHit. A hit is a clip and a distance and time that are only
-- read through two tests, so their types are arguments, and so is the draw.
use tripbot.Base.{
  ℕ, zero, suc, Bool, true, false, ◌&&◌, Option, none, some, List, [], ◌∷◌, ◌==◌, if◌then◌else◌,
  length, Text, same_text,
}

module _ {H : Type 0} (far : H → Bool) (slug : H → Text) (bucket : H → ℕ) where
  -- The key of a moment: the clip and its stretch of a minute.
  abbrev pub same_moment : H → H → Bool
  same_moment h k = same_text (slug h) (slug k) && bucket h == bucket k

  abbrev pub seen : H → List H → Bool
  seen h [] = false
  seen h (k ∷ ks) = let rest = seen h ks in if same_moment k h then true else rest

  -- The loop of `pickFindHit`, with as many moments left to take as `room`.
  unfoldable pub moments : ℕ → List H → List H → List H
  moments room taken [] = []
  moments zero taken (h ∷ hs) = []
  moments (suc room) taken (h ∷ hs) =
      let skip = moments (suc room) taken hs in
      let take = moments room (h ∷ taken) hs in
      if far h then skip else (if seen h taken then skip else h ∷ take)

  abbrev pub nth : H → List H → ℕ → H
  nth default [] i = default
  nth default (h ∷ hs) zero = h
  nth default (h ∷ hs) (suc i) = nth default hs i

  abbrev pub drawn : (ℕ → ℕ) → H → List H → H
  drawn draw first [] = first
  drawn draw first (m ∷ ms) = nth first (m ∷ ms) (draw (length (m ∷ ms)))

  -- `findRandomizeTopN`.
  abbrev pub top : ℕ
  top = 10

  -- The pick of `findHit`: none for a miss.
  unfoldable pub find_hit : (ℕ → ℕ) → List H → Option H
  unfolding moments
  find_hit draw [] = none
  find_hit draw (h ∷ hs) = if far h then none else some (drawn draw h (moments top [] (h ∷ hs)))
