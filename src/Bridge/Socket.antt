-- ===== src/Bridge/Socket.antt =====
-- nexus-bridge/bridge.go, MaintainWebSocket: the reconnection loop. A turn of the loop is the error
-- of manageConnection, whether the context is then done, and the randomness of the wait.
pub mod Laws
use nexus_framework.Prelude.{ℕ, Bool, Option, none, some, List, [], ◌∷◌, ◌++◌, if◌then◌else◌}
use nexus_framework.Prelude.Int.{ℤ}
use nexus_framework.Bridge.Errors.{GoError, is_permanent}
use nexus_framework.Bridge.Backoff.{RetryPolicy, calculate_backoff}

pub record Turn : Type 0 where
  pub error : Option GoError
  pub cancelled : Bool
  pub draw : ℕ

pub data Exit : Type 0 where
  stopped : GoError → Exit
  context_error : Exit
  panicked : Exit

abbrev stops : Option GoError → Option Exit
stops none = none
stops (some e) = if is_permanent e then some (stopped e) else none

-- The wait of a turn, or the reason for a return.
unfoldable pub socket_turn : RetryPolicy → Turn → Option ℤ × Option Exit
socket_turn policy t = elim (stops t.error) [
  | some x ↦ (none, some x)
  | none ↦
      if t.cancelled then (none, some context_error) else elim (calculate_backoff policy t.draw) [
        | none ↦ (none, some panicked)
        | some w ↦ (some w, none)
      ]
]

-- The waits of a run, and how it returned.
unfoldable pub maintain_websocket : RetryPolicy → List Turn → List (Option ℤ) × Option Exit
maintain_websocket policy [] = ([], none)
maintain_websocket policy (t ∷ later) =
    let (wait, done) = socket_turn policy t in
    let (waits, final) = maintain_websocket policy later in
    elim done [ some x ↦ ([], some x) | none ↦ (wait ∷ waits, final) ]
