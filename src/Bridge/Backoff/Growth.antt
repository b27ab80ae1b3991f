-- ===== src/Bridge/Backoff/Growth.antt =====
-- nexus-bridge/bridge.go: the backoff sequence and the bounds of the waits.
use native.Mathlib.Decide.{dec_lt}
use native.Mathlib.Nat.{pow-suc, mod-lt}
use nexus_framework.Prelude.{
  ap, ◌-◌, ℕ, zero, suc, ◌+◌, ◌*◌, ◌^◌, ◌%◌, ◌≤◌, ◌<◌, min, ◌≡◌, ◌↔◌, none, some, arith,
}
use nexus_framework.Prelude.Int.{ℤ, pos, negsuc, ◌≤ℤ◌, add64, double64}
use nexus_framework.Bridge.Backoff.{RetryPolicy, grow_backoff, apply_jitter, calculate_backoff}

-- The backoff after `n` failures in a row.
unfoldable pub backoff_after : RetryPolicy → ℕ → ℤ
backoff_after policy zero = policy.min_backoff
backoff_after policy (suc n) = grow_backoff policy (backoff_after policy n)

double64_small : (c : ℕ) → 2 * c < 9223372036854775808 → double64 (pos c) ≡ pos (2 * c)
unfolding double64
double64_small c h = ground arith

double64_large :
    (c : ℕ)
    → c < 9223372036854775808
    → 9223372036854775808 ≤ 2 * c
    → double64 (pos c) ≡ negsuc (18446744073709551615 - 2 * c)
unfolding double64
double64_large c h k = ground arith

le-mul-pow : (m n : ℕ) → m ≤ m * 2 ^ n
le-mul-pow m zero = omega arith
le-mul-pow m (suc n) = rw pow-suc (omega (arith, le-mul-pow m n))

module _ (policy : RetryPolicy) (max_ns : ℕ) (capped : policy.max_backoff ≡ pos max_ns)
    (fits : max_ns < 9223372036854775808) where
  -- One step doubles the wait and stops at the maximum, also where doubling overflows an int64.
  grow_backoff-min :
      (c : ℕ) → 0 < c → c ≤ max_ns → grow_backoff policy (pos c) ≡ pos (min (2 * c) max_ns)
  unfolding grow_backoff
  grow_backoff-min c h k = elim (dec_lt (2 * c) 9223372036854775808) [
    | yes small ↦ rw (double64_small c small, capped) (ground arith)
    | no large ↦ rw (double64_large c (omega arith) (omega arith), capped) (ground arith)
  ]

  -- After n failures the wait is the minimum times 2 ^ n, cut at the maximum, also where doubling
  -- overflows an int64: for a positive minimum that is at most the maximum, and a maximum that is
  -- an int64.
  pub backoff_after_lem :
      (min_ns : ℕ)
      → policy.min_backoff ≡ pos min_ns
      → 0 < min_ns
      → min_ns ≤ max_ns
      → (n : ℕ) → backoff_after policy n ≡ pos (min (min_ns * 2 ^ n) max_ns)
  unfolding backoff_after
  backoff_after_lem m e h k zero = rw e (ap pos (omega arith))
  backoff_after_lem m e h k (suc n) = rw (backoff_after_lem m e h k n) (
      rw (grow_backoff-min (min (m * 2 ^ n) max_ns) (omega (arith, le-mul-pow m n)) (omega arith))
        (ap pos (rw pow-suc (omega arith))))

add64_pos : (a b : ℕ) → a + b < 9223372036854775808 → add64 (pos a) (pos b) ≡ pos (a + b)
unfolding add64
add64_pos a b h = ground arith

-- A wait is never shorter than its base and stays below the base plus the jitter, where the two
-- fit an int64.
pub apply_jitter_bounds :
    (policy : RetryPolicy) (draw base jitter_ns : ℕ)
    → policy.jitter ≡ pos jitter_ns
    → base + jitter_ns < 9223372036854775808
    → (wait : ℕ) × (apply_jitter policy draw (pos base) ≡ some (pos wait))
      × (base ≤ wait)
      × (wait ≤ base + jitter_ns)
unfolding apply_jitter
apply_jitter_bounds policy draw base zero e h = (base, rw e, omega arith, omega arith)
apply_jitter_bounds policy draw base (suc j) e h =
    let r : ℕ = draw % suc j in
    let small : r < suc j = mod-lt draw (omega arith) in
    (base + r, rw e (ground (arith, add64_pos base r)), omega arith, omega arith)

-- The flat wait of the WebSocket loop never exceeds the maximum; the computation panics exactly if
-- the policy has no positive jitter.
pub calculate_backoff_lem :
    (policy : RetryPolicy) (draw : ℕ)
    → ((calculate_backoff policy draw ≡ none) ↔ (policy.jitter ≤ℤ pos 0))
      × ((wait : ℤ) → calculate_backoff policy draw ≡ some wait → wait ≤ℤ policy.max_backoff)
unfolding calculate_backoff
calculate_backoff_lem policy draw = (ground arith, λ wait. ground arith)
