-- ===== src/Bridge/Rpc/Metrics.antt =====
-- nexus-bridge/bridge.go, MaintainGRPCConnection: the metrics of a run.
use nexus_framework.Prelude.{
  ℕ, zero, suc, ◌+◌, ◌≡◌, refl, ◌∙◌, ap, List, [], ◌∷◌, ◌++◌, arith, Option-cases, inl, inr,
}
use nexus_framework.Prelude.Int.{ℤ}
use nexus_framework.Bridge.Backoff.{RetryPolicy, grow_backoff}
use nexus_framework.Bridge.Rpc.Steps.{turn_on, turn_ended, loop_on, loop_ended}
use nexus_framework.Bridge.Rpc.{
  Attempt, Action, waited, inc_connections, inc_disconnects, set_connection_status, wait_once,
  attempt_once, turn, loop, maintain_grpc,
}

-- The numbers of connections made and dropped, and the last status, in a list of actions.
abbrev pub connections : List Action → ℕ
connections [] = 0
connections (inc_connections ∷ l) = suc (connections l)
connections (_ ∷ l) = connections l

abbrev pub disconnects : List Action → ℕ
disconnects [] = 0
disconnects (inc_disconnects ∷ l) = suc (disconnects l)
disconnects (_ ∷ l) = disconnects l

abbrev pub status_after : ℕ → List Action → ℕ
status_after s [] = s
status_after s (set_connection_status t ∷ l) = status_after t l
status_after s (_ ∷ l) = status_after s l

-- As many drops as connections, and no connection open at the end.
abbrev pub IsBalanced : List Action → Type 0
IsBalanced l = (connections l ≡ disconnects l) × (status_after 0 l ≡ 0)

connections-append : (l m : List Action) → connections (l ++ m) ≡ connections l + connections m
connections-append [] m = omega arith
connections-append (waited w ∷ l) m = connections-append l m
connections-append (inc_connections ∷ l) m = omega (arith, connections-append l m)
connections-append (inc_disconnects ∷ l) m = connections-append l m
connections-append (set_connection_status t ∷ l) m = connections-append l m

disconnects-append : (l m : List Action) → disconnects (l ++ m) ≡ disconnects l + disconnects m
disconnects-append [] m = omega arith
disconnects-append (waited w ∷ l) m = disconnects-append l m
disconnects-append (inc_connections ∷ l) m = disconnects-append l m
disconnects-append (inc_disconnects ∷ l) m = omega (arith, disconnects-append l m)
disconnects-append (set_connection_status t ∷ l) m = disconnects-append l m

status_after-append :
    (s : ℕ) (l m : List Action) → status_after s (l ++ m) ≡ status_after (status_after s l) m
status_after-append s [] m = refl
status_after-append s (waited w ∷ l) m = status_after-append s l m
status_after-append s (inc_connections ∷ l) m = status_after-append s l m
status_after-append s (inc_disconnects ∷ l) m = status_after-append s l m
status_after-append s (set_connection_status t ∷ l) m = status_after-append t l m

IsBalanced-append : (l m : List Action) → IsBalanced l → IsBalanced m → IsBalanced (l ++ m)
IsBalanced-append l m (same, down) (same', down') = (
  omega (arith, connections-append l m, disconnects-append l m),
  status_after-append 0 l m ∙ ap (λ s. status_after s m) down ∙ down',
)

wait_once-IsBalanced :
    (policy : RetryPolicy) (b : ℤ) (n : ℕ) (a : Attempt) → IsBalanced (wait_once policy b n a).0
unfolding wait_once
wait_once-IsBalanced policy b zero a = (refl, refl)
wait_once-IsBalanced policy b (suc n) a = ground arith

attempt_once-IsBalanced : (a : Attempt) → IsBalanced (attempt_once a).0
unfolding attempt_once
attempt_once-IsBalanced a = ground arith

turn-IsBalanced :
    (policy : RetryPolicy) (b : ℤ) (n : ℕ) (a : Attempt) → IsBalanced (turn policy b n a).0
turn-IsBalanced policy b n a =
    let waiting = wait_once-IsBalanced policy b n a in
    elim (Option-cases (wait_once policy b n a).1) [
      | inl on ↦ rw (turn_on policy b n a on) (
          IsBalanced-append (wait_once policy b n a).0 (attempt_once a).0 waiting
            (attempt_once-IsBalanced a))
      | inr (x, ended) ↦ rw (turn_ended policy b n a ended) waiting
    ]

loop-IsBalanced :
    (policy : RetryPolicy) (b : ℤ) (n : ℕ) (attempts : List Attempt)
    → IsBalanced (loop policy b n attempts).0
unfolding loop
loop-IsBalanced policy b n [] = (refl, refl)
loop-IsBalanced policy b n (a ∷ later) =
    let first = turn-IsBalanced policy b n a in
    let rest = loop-IsBalanced policy (grow_backoff policy b) (suc n) later in
    elim (Option-cases (turn policy b n a).1) [
      | inl on ↦ rw (loop_on policy b n a later on) (
          IsBalanced-append (turn policy b n a).0
            (loop policy (grow_backoff policy b) (suc n) later).0 first rest)
      | inr (x, ended) ↦ rw (loop_ended policy b n a later ended) first
    ]

-- At the end of every turn, and so also when the loop returns, as many connections were dropped as
-- made, and the status gauge is back at 0.
pub maintain_grpc-IsBalanced :
    (policy : RetryPolicy) (attempts : List Attempt) → IsBalanced (maintain_grpc policy attempts).0
unfolding maintain_grpc
maintain_grpc-IsBalanced policy attempts = loop-IsBalanced policy policy.min_backoff 0 attempts
