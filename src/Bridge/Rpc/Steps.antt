-- ===== src/Bridge/Rpc/Steps.antt =====
-- nexus-bridge/bridge.go, MaintainGRPCConnection: one turn of the loop as equations.
use nexus_framework.Prelude.{ℕ, suc, ◌≡◌, none, some, List, ◌∷◌, ◌++◌}
use nexus_framework.Prelude.Int.{ℤ}
use nexus_framework.Bridge.Backoff.{RetryPolicy, grow_backoff}
use nexus_framework.Bridge.Rpc.{Attempt, Exit, wait_once, attempt_once, turn, loop}

module _ (policy : RetryPolicy) (b : ℤ) (n : ℕ) (a : Attempt) where
  pub turn_on :
      (wait_once policy b n a).1 ≡ none
      → turn policy b n a ≡ ((wait_once policy b n a).0 ++ (attempt_once a).0, (attempt_once a).1)
  unfolding turn
  turn_on on = rw (on, turn)

  pub turn_ended :
      {x : Exit}
      → (wait_once policy b n a).1 ≡ some x
      → turn policy b n a ≡ ((wait_once policy b n a).0, some x)
  unfolding turn
  turn_ended ended = rw (ended, turn)

  pub loop_on :
      (later : List Attempt)
      → (turn policy b n a).1 ≡ none
      → loop policy b n (a ∷ later) ≡ (
        (turn policy b n a).0 ++ (loop policy (grow_backoff policy b) (suc n) later).0,
        (loop policy (grow_backoff policy b) (suc n) later).1,
      )
  unfolding loop
  loop_on later on = rw (on, loop)

  pub loop_ended :
      (later : List Attempt) {x : Exit}
      → (turn policy b n a).1 ≡ some x
      → loop policy b n (a ∷ later) ≡ ((turn policy b n a).0, some x)
  unfolding loop
  loop_ended later ended = rw (ended, loop)
