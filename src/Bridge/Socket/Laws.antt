-- ===== src/Bridge/Socket/Laws.antt =====
-- nexus-bridge/bridge.go, MaintainWebSocket: when the loop returns, and what it waits.
use nexus_framework.Prelude.{
  ◌≡◌, ◌≢◌, refl, ap, true, false, Option, none, some, List, [], ◌∷◌, ◌++◌, arith, Option-cases,
  inl, inr,
}
use nexus_framework.Prelude.Int.{ℤ, pos, ◌≤ℤ◌}
use nexus_framework.Bridge.Errors.{GoError, is_permanent}
use nexus_framework.Bridge.Backoff.{RetryPolicy, calculate_backoff}
use nexus_framework.Bridge.Backoff.Growth.{calculate_backoff_lem}
use nexus_framework.Bridge.Socket.{
  Turn, Exit, stopped, context_error, panicked, socket_turn, maintain_websocket,
}

-- A turn after which the loop connects again: no permanent error, and the context is not done.
abbrev pub IsRetried : Turn → Type 0
IsRetried t = ((e : GoError) → t.error ≡ some e → is_permanent e ≡ false) × (t.cancelled ≡ false)

-- The reason for a return.
abbrev pub Ends : RetryPolicy → Turn → Exit → Type 0
Ends policy t (stopped e) = (t.error ≡ some e) × (is_permanent e ≡ true)
Ends policy t context_error = t.cancelled ≡ true
Ends policy t panicked = policy.jitter ≤ℤ pos 0

-- The waits of the turns that were retried, which none of them had to do without.
abbrev pub Waited : RetryPolicy → List Turn → List (Option ℤ) → Type 0
Waited policy [] ws = ws ≡ []
Waited policy (t ∷ ts) [] = ⊥
Waited policy (t ∷ ts) (w ∷ ws) =
    IsRetried t × (w ≢ none) × (w ≡ calculate_backoff policy t.draw) × Waited policy ts ws

abbrev pub StoppedAt : RetryPolicy → List Turn → List (Option ℤ) → Exit → Type 0
StoppedAt policy turns waits x =
    (earlier : List Turn) × (last : Turn) × (later : List Turn) × (turns ≡ earlier ++ last ∷ later)
    × Waited policy earlier waits
    × Ends policy last x

module _ (policy : RetryPolicy) (t : Turn) where
  socket_turn-Ends : (x : Exit) → (socket_turn policy t).1 ≡ some x → Ends policy t x
  unfolding socket_turn
  socket_turn-Ends (stopped e) h = ground arith
  socket_turn-Ends context_error h = ground arith
  socket_turn-Ends panicked h = (calculate_backoff_lem policy t.draw).0.0 (ground arith)

  socket_turn-IsRetried :
      (socket_turn policy t).1 ≡ none
      → IsRetried t
        × ((socket_turn policy t).0 ≢ none)
        × ((socket_turn policy t).0 ≡ calculate_backoff policy t.draw)
  unfolding socket_turn
  socket_turn-IsRetried h = ((λ e failed. ground arith, ground arith), ground arith, ground arith)

  maintain_on :
      (later : List Turn)
      → (socket_turn policy t).1 ≡ none
      → maintain_websocket policy (t ∷ later) ≡ (
        (socket_turn policy t).0 ∷ (maintain_websocket policy later).0,
        (maintain_websocket policy later).1,
      )
  unfolding maintain_websocket
  maintain_on later on = rw (on, maintain_websocket)

  maintain_ended :
      (later : List Turn) {x : Exit}
      → (socket_turn policy t).1 ≡ some x
      → maintain_websocket policy (t ∷ later) ≡ ([], some x)
  unfolding maintain_websocket
  maintain_ended later ended = rw (ended, maintain_websocket)

  StoppedAt-cons :
      (later : List Turn) (waits : List (Option ℤ)) (x : Exit)
      → (socket_turn policy t).1 ≡ none
      → StoppedAt policy later waits x
      → StoppedAt policy (t ∷ later) ((socket_turn policy t).0 ∷ waits) x
  StoppedAt-cons later waits x on (earlier, last, rest, same, waited, ends) =
      let (retried, some_wait, wait) = socket_turn-IsRetried on in
      (t ∷ earlier, last, rest, ap (λ l. t ∷ l) same, (retried, some_wait, wait, waited), ends)

no_turn : (policy : RetryPolicy) {x : Exit} → (maintain_websocket policy []).1 ≡ some x → ⊥
unfolding maintain_websocket
no_turn policy h = cc h

-- MaintainWebSocket returns only at a turn that ends it: with a permanent error, with a context
-- that is done, or by the panic of a policy without a positive jitter. Every turn before it ended
-- in an error that is not permanent, or in none, and was followed by its computed wait.
pub maintain_websocket-StoppedAt :
    (policy : RetryPolicy) (turns : List Turn) (x : Exit)
    → (maintain_websocket policy turns).1 ≡ some x
    → StoppedAt policy turns (maintain_websocket policy turns).0 x
maintain_websocket-StoppedAt policy [] x h = absurd (no_turn policy h)
maintain_websocket-StoppedAt policy (t ∷ later) x h = elim (Option-cases (socket_turn policy t).1) [
  | inr (y, ended) ↦ rw (maintain_ended policy t later ended) (
    [],
    t,
    later,
    refl,
    refl,
    socket_turn-Ends policy t x (cc (ended, rw (maintain_ended policy t later ended) at h)),
  )
  | inl on ↦
      let same = maintain_on policy t later on in
      rw same (
        StoppedAt-cons policy t later (maintain_websocket policy later).0 x on
          (maintain_websocket-StoppedAt policy later x (rw same at h)))
]
