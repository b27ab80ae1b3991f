-- ===== src/Bridge/Errors.antt =====
-- nexus-bridge/error.go: the errors that stop the reconnection loops, and Go's error chains.
use nexus_framework.Prelude.{ℕ, String, Bool, true, false, ◌||◌, ◌=?◌}

-- An error with what it wraps. `closed` is a WebSocket close frame with its code.
pub data GoError : Type 0 where
  plain : String → GoError
  closed : ℕ → GoError
  interaction_required : GoError
  cancelled : GoError
  permanent : GoError → GoError
  wrapped : String → GoError → GoError

-- errors.Is(err, ErrInteractionRequired)
unfoldable pub is_interaction_required : GoError → Bool
is_interaction_required interaction_required = true
is_interaction_required (permanent e) = is_interaction_required e
is_interaction_required (wrapped _ e) = is_interaction_required e
is_interaction_required _ = false

-- errors.As(err, &permanentErr)
unfoldable pub is_permanent : GoError → Bool
is_permanent (permanent e) = true
is_permanent (wrapped _ e) = is_permanent e
is_permanent _ = false

-- CloseNormalClosure, ClosePolicyViolation, CloseInternalServerErr, CloseInvalidFramePayloadData
unfoldable pub permanent_close_codes : ℕ → Bool
permanent_close_codes c = c =? 1000 || c =? 1008 || c =? 1011 || c =? 1007
