-- ===== src/Gateway/Answers.antt =====
-- nexus-gateway/pkg/usecase/handler.go: the answers of the broker, as the generated client gives
-- them, and those of the gateway. The texts of messages are left out.
use nexus_framework.Prelude.{ℕ, String, Option}
use nexus_framework.Prelude.Maps.{Assoc}
use nexus_framework.Json.{Value}

-- The client gives an error, or a status and the decoded body of that status, if there is one.
pub data BrokerAnswer (A : Type 0) : Type 0 where
  unavailable : BrokerAnswer A
  replied : ℕ → Option A → BrokerAnswer A

-- writeError, with its fields; writeJSON; a status without a body; http.Error.
pub data Answer : Type 0 where
  failure : ℕ → String → Assoc Value → Answer
  body : ℕ → Value → Answer
  bare : ℕ → Answer
  plain : ℕ → Answer

abbrev pub status_of : Answer → ℕ
status_of (failure status _ _) = status
status_of (body status _) = status
status_of (bare status) = status
status_of (plain status) = status
