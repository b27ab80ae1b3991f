-- ===== src/Bridge/Backoff.antt =====
-- nexus-bridge/options.go and bridge.go: the retry policy and the waits between attempts.
-- Durations are Go's int64 nanoseconds.
pub mod Growth
use nexus_framework.Prelude.{ℕ, ◌%◌, Bool, Option, none, some, ◌||◌, if◌then◌else◌}
use nexus_framework.Prelude.Int.{ℤ, pos, pos_part, leb_ℤ, ltb_ℤ, add64, double64}

pub record RetryPolicy : Type 0 where
  pub min_backoff : ℤ
  pub max_backoff : ℤ
  pub jitter : ℤ

-- growBackoff
unfoldable pub grow_backoff : RetryPolicy → ℤ → ℤ
unfolding double64
grow_backoff policy current =
    let next = double64 current in
    if ltb_ℤ policy.max_backoff next || leb_ℤ next (pos 0) then policy.max_backoff else next

-- rand.Int63n on some entropy; `none` is its panic on a bound that is not positive.
unfoldable pub int63n : ℤ → ℕ → Option ℤ
int63n n draw = if leb_ℤ n (pos 0) then none else some (pos (draw % pos_part n))

-- applyJitter
unfoldable pub apply_jitter : RetryPolicy → ℕ → ℤ → Option ℤ
unfolding int63n
apply_jitter policy draw d =
    if leb_ℤ policy.jitter (pos 0)
    then some d
    else elim (int63n policy.jitter draw) [ none ↦ none | some r ↦ some (add64 d r) ]

-- calculateBackoff
unfoldable pub calculate_backoff : RetryPolicy → ℕ → Option ℤ
unfolding int63n
calculate_backoff policy draw = elim (int63n policy.jitter draw) [
  | none ↦ none
  | some r ↦
      let backoff = add64 policy.min_backoff r in
      some (if ltb_ℤ policy.max_backoff backoff then policy.max_backoff else backoff)
]
