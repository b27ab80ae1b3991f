-- ===== src/Bridge/Rpc/Exits.antt =====
-- nexus-bridge/bridge.go, MaintainGRPCConnection: when the loop returns, and the metrics balance.
use nexus_framework.Prelude.{
  ℕ, zero, suc, ◌≡◌, ◌≢◌, ◌⊎◌, inl, inr, refl, ap, true, false, none, some, List, [], ◌∷◌, ◌++◌,
  arith, Option-cases,
}
use nexus_framework.Prelude.Int.{ℤ}
use nexus_framework.Bridge.Errors.{GoError, is_interaction_required, is_permanent}
use nexus_framework.Bridge.Backoff.{RetryPolicy, grow_backoff, apply_jitter}
use nexus_framework.Bridge.Rpc.{
  Attempt, Exit, clean, stopped, context_error, panicked, verdict, attempt_once, wait_once, turn,
  loop, maintain_grpc,
}

abbrev pub All {ℓ κ} : {A : Type ℓ} → (A → Type κ) → List A → Type κ
All P [] = Unit
All P (x ∷ xs) = P x × All P xs

-- An attempt after which the loop tries again: the dial failed, or the callback returned an error
-- that is neither permanent nor asks for the user, in a context that is not done.
abbrev pub IsRetried : Attempt → Type 0
IsRetried a =
    (e : GoError) × ((a.dial ≡ some e)
      ⊎ ((a.run ≡ some e)
          × (is_interaction_required e ≡ false)
          × (is_permanent e ≡ false)
          × (a.cancelled_after ≡ false)))

-- The reason for a return.
abbrev pub Ends : Attempt → Exit → Type 0
Ends a clean = (a.dial ≡ none) × (a.run ≡ none)
Ends a (stopped e) =
    (a.dial ≡ none)
    × (a.run ≡ some e)
    × ((is_interaction_required e ≡ true) ⊎ (is_permanent e ≡ true))
Ends a context_error = (a.cancelled_waiting ≡ true) ⊎ (a.cancelled_after ≡ true)
Ends a panicked = ⊥

apply_jitter_total : (policy : RetryPolicy) (draw : ℕ) (d : ℤ) → apply_jitter policy draw d ≢ none
unfolding apply_jitter
apply_jitter_total policy draw d = ground arith

wait_once-Ends :
    (policy : RetryPolicy) (b : ℤ) (n : ℕ) (a : Attempt) (x : Exit)
    → (wait_once policy b n a).1 ≡ some x
    → Ends a x
unfolding wait_once
wait_once-Ends policy b zero a x h = absurd (cc h)
wait_once-Ends policy b (suc n) a clean h = ground (arith, apply_jitter_total policy a.draw b)
wait_once-Ends policy b (suc n) a (stopped e) h = ground (arith, apply_jitter_total policy a.draw b)
wait_once-Ends policy b (suc n) a context_error h =
    ground (arith, apply_jitter_total policy a.draw b)
wait_once-Ends policy b (suc n) a panicked h = ground (arith, apply_jitter_total policy a.draw b)

attempt_once-Ends : (a : Attempt) (x : Exit) → (attempt_once a).1 ≡ some x → Ends a x
unfolding attempt_once verdict
attempt_once-Ends a clean h = ground arith
attempt_once-Ends a (stopped e) h = ground arith
attempt_once-Ends a context_error h = ground arith
attempt_once-Ends a panicked h = ground arith

attempt_once-IsRetried : (a : Attempt) → (attempt_once a).1 ≡ none → IsRetried a
unfolding attempt_once verdict
attempt_once-IsRetried a h = elim (Option-cases a.dial) [
  | inr (e, failed) ↦ (e, inl failed)
  | inl dialled ↦ elim (Option-cases a.run) [
    | inl done ↦ absurd (ground arith)
    | inr (e, failed) ↦ (e, inr (failed, ground arith, ground arith, ground arith))
  ]
]

module _ (policy : RetryPolicy) (b : ℤ) (n : ℕ) (a : Attempt) where
  turn-Ends : (x : Exit) → (turn policy b n a).1 ≡ some x → Ends a x
  unfolding turn
  turn-Ends x h = elim (Option-cases (wait_once policy b n a).1) [
    | inr (y, early) ↦ wait_once-Ends policy b n a x (ground (arith, early))
    | inl on ↦ attempt_once-Ends a x (ground (arith, on))
  ]

  turn-IsRetried : (turn policy b n a).1 ≡ none → IsRetried a
  unfolding turn
  turn-IsRetried h = attempt_once-IsRetried a (ground arith)

-- The attempts up to the one that ended the loop.
abbrev pub StoppedAt : List Attempt → Exit → Type 0
StoppedAt attempts x =
    (earlier : List Attempt) × (last : Attempt) × (later : List Attempt) × (attempts
      ≡ earlier ++ last ∷ later)
    × All IsRetried earlier
    × Ends last x

StoppedAt-cons :
    (a : Attempt) (attempts : List Attempt) (x : Exit)
    → IsRetried a
    → StoppedAt attempts x
    → StoppedAt (a ∷ attempts) x
StoppedAt-cons a attempts x r (earlier, last, later, same, retried, ends) =
    (a ∷ earlier, last, later, ap (λ l. a ∷ l) same, (r, retried), ends)

loop-StoppedAt :
    (policy : RetryPolicy) (b : ℤ) (n : ℕ) (attempts : List Attempt) (x : Exit)
    → (loop policy b n attempts).1 ≡ some x
    → StoppedAt attempts x
unfolding loop
loop-StoppedAt policy b n [] x h = absurd (cc h)
loop-StoppedAt policy b n (a ∷ later) x h = elim (Option-cases (turn policy b n a).1) [
  | inr (y, ended) ↦ ([], a, later, refl, tt, turn-Ends policy b n a x (ground (arith, ended)))
  | inl on ↦
      StoppedAt-cons a later x (turn-IsRetried policy b n a on)
        (loop-StoppedAt policy (grow_backoff policy b) (suc n) later x (ground (arith, on)))
]

-- MaintainGRPCConnection returns only at an attempt that ends it: a clean run, an error that is
-- permanent or asks for the user, or a context that is done. Every attempt before it was one to be
-- retried. It never panics.
pub maintain_grpc-StoppedAt :
    (policy : RetryPolicy) (attempts : List Attempt) (x : Exit)
    → (maintain_grpc policy attempts).1 ≡ some x
    → StoppedAt attempts x
unfolding maintain_grpc
maintain_grpc-StoppedAt policy attempts x h =
    loop-StoppedAt policy policy.min_backoff 0 attempts x h

loop_running :
    (policy : RetryPolicy) (b : ℤ) (n : ℕ) (attempts : List Attempt)
    → (loop policy b n attempts).1 ≡ none
    → All IsRetried attempts
unfolding loop
loop_running policy b n [] h = tt
loop_running policy b n (a ∷ later) h = elim (Option-cases (turn policy b n a).1) [
  | inr (y, ended) ↦ absurd (ground (arith, ended))
  | inl on ↦ (
    turn-IsRetried policy b n a on,
    loop_running policy (grow_backoff policy b) (suc n) later (ground (arith, on)),
  )
]

-- The loop is still running only if every attempt so far was one to be retried: an attempt that is
-- not makes it return.
pub maintain_grpc_running :
    (policy : RetryPolicy) (attempts : List Attempt)
    → (maintain_grpc policy attempts).1 ≡ none
    → All IsRetried attempts
unfolding maintain_grpc
maintain_grpc_running policy attempts h = loop_running policy policy.min_backoff 0 attempts h
