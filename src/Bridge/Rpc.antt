-- ===== src/Bridge/Rpc.antt =====
-- nexus-bridge/bridge.go, MaintainGRPCConnection: the retry loop over attempts. What the
-- environment does in one turn of the loop is an `Attempt`; a run is a list of them.
mod Steps
pub mod Exits
pub mod Metrics
pub mod Waits
use nexus_framework.Prelude.{
  ℕ, zero, suc, Bool, Option, none, some, List, [], ◌∷◌, ◌++◌, if◌then◌else◌,
}
use nexus_framework.Prelude.Int.{ℤ}
use nexus_framework.Bridge.Errors.{GoError, is_interaction_required, is_permanent}
use nexus_framework.Bridge.Backoff.{RetryPolicy, grow_backoff, apply_jitter}

pub record Attempt : Type 0 where
  pub draw : ℕ  -- the randomness of the wait before the attempt
  pub cancelled_waiting : Bool  -- ctx is done while the loop waits
  pub dial : Option GoError  -- the error of grpc.NewClient
  pub run : Option GoError  -- what the run callback returns
  pub cancelled_after : Bool  -- ctx is done when the callback has returned

-- What an observer sees: the waits, and the calls of the metrics.
pub data Action : Type 0 where
  waited : ℤ → Action
  inc_connections inc_disconnects : Action
  set_connection_status : ℕ → Action

-- How the function returns.
pub data Exit : Type 0 where
  clean : Exit
  stopped : GoError → Exit
  context_error : Exit
  panicked : Exit

-- The tests after the run callback; `none` is another turn.
unfoldable pub verdict : Attempt → Option Exit
verdict a = elim a.run [
  | none ↦ some clean
  | some e ↦
      if is_interaction_required e
      then some (stopped e)
      else if is_permanent e
      then some (stopped e)
      else if a.cancelled_after
      then some context_error
      else none
]

-- One attempt after its wait: what it does, and whether the loop ends.
unfoldable pub attempt_once : Attempt → List Action × Option Exit
attempt_once a = elim a.dial [
  | some _ ↦ ([], none)
  | none ↦ (
    inc_connections ∷ set_connection_status 1 ∷ set_connection_status 0 ∷ inc_disconnects ∷ [],
    verdict a,
  )
]

-- The wait, which the first attempt does not have.
unfoldable pub wait_once : RetryPolicy → ℤ → ℕ → Attempt → List Action × Option Exit
wait_once policy backoff zero a = ([], none)
wait_once policy backoff (suc n) a = elim (apply_jitter policy a.draw backoff) [
  | none ↦ ([], some panicked)
  | some w ↦ if a.cancelled_waiting then ([], some context_error) else (waited w ∷ [], none)
]

-- One turn: wait, then try.
unfoldable pub turn : RetryPolicy → ℤ → ℕ → Attempt → List Action × Option Exit
turn policy backoff n a =
    let (waits, early) = wait_once policy backoff n a in
    elim early [
      | some x ↦ (waits, some x)
      | none ↦ let (acts, done) = attempt_once a in (waits ++ acts, done)
    ]

-- The loop, from a backoff and a count of attempts. With no attempt left it is still running. Every
-- turn that does not end it, by a failed dial or a failed run, grows the backoff.
unfoldable pub loop : RetryPolicy → ℤ → ℕ → List Attempt → List Action × Option Exit
loop policy backoff n [] = ([], none)
loop policy backoff n (a ∷ later) =
    let (acts, done) = turn policy backoff n a in
    let (more, final) = loop policy (grow_backoff policy backoff) (suc n) later in
    elim done [ some x ↦ (acts, some x) | none ↦ (acts ++ more, final) ]

unfoldable pub maintain_grpc : RetryPolicy → List Attempt → List Action × Option Exit
maintain_grpc policy attempts = loop policy policy.min_backoff 0 attempts
