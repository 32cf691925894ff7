-- ===== src/Streaming/Backoff.antt =====
-- The poller's wait before it dials again.
use native.Mathlib.Nat.{pow-suc}
use tripbot.Base.{
  ◌≡◌, ◌∙◌, inl, inr, ℕ, zero, suc, ◌*◌, ◌^◌, ◌≤◌, min, arith, leb, lt_or_le, Bool-cases,
}
use tripbot.Streaming.{base_wait, max_reconnect_wait, doubled, reconnect_wait}

pow_le : (k n : ℕ) → k ≤ n → 2 ^ k ≤ 2 ^ n
pow_le k zero h = elim (lt_or_le k 1) [
  | inl zero' ↦ let e : k ≡ 0 = omega arith in rw e (omega arith)
  | inr more ↦ absurd (omega arith)
]
pow_le k (suc n) h = elim (lt_or_le k (suc n)) [
  | inl less ↦ omega (arith, pow-suc 2 n, pow_le k n (omega arith))
  | inr same ↦ let e : k ≡ suc n = omega arith in rw e (omega arith)
]

mul-pow : (ns k : ℕ) → ns * 2 ^ suc k ≡ ns * 2 * 2 ^ k
mul-pow ns k = rw (pow-suc 2 k) (grind arith)

-- The loop doubles the wait as often as it is told to, up to the cap.
doubled_lem :
    (k ns : ℕ) → ns ≤ max_reconnect_wait → doubled k ns ≡ min (ns * 2 ^ k) max_reconnect_wait
unfolding doubled
doubled_lem zero ns h = ground arith
doubled_lem (suc k) ns h = elim (Bool-cases (leb max_reconnect_wait (ns * 2))) [
  | inl capped ↦
      let grown : ns * 2 ≤ ns * 2 * 2 ^ k = grind (arith, pow_le 0 k (omega arith)) in
      rw (capped, mul-pow ns k) (ground arith)
  | inr below ↦ rw (below, mul-pow ns k) (doubled_lem k (ns * 2) (ground arith))
]

-- After any number of failed dials in a row the wait is ten seconds doubled as often, and never more
-- than five minutes.
pub reconnect_wait_lem : (n : ℕ) → reconnect_wait n ≡ min (base_wait * 2 ^ n) max_reconnect_wait
unfolding reconnect_wait
reconnect_wait_lem n = elim (lt_or_le n 6) [
  | inl few ↦ let e : min n 6 ≡ n = ground arith in rw e (doubled_lem n base_wait (omega arith))
  | inr many ↦
      let e : min n 6 ≡ 6 = ground arith in
      rw e (doubled_lem 6 base_wait (omega arith) ∙ ground (arith, pow_le 6 n many))
]
