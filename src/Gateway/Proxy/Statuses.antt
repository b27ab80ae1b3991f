-- ===== src/Gateway/Proxy/Statuses.antt =====
-- nexus-gateway/pkg/usecase/handler.go: the statuses of the handlers that pass a request on.
use nexus_framework.Prelude.{
  ◌==◌, ℕ, String, ◌≡◌, refl, none, some, if◌then◌else◌, arith, Bool-cases, inl, inr,
}
use nexus_framework.Json.{Value}
use nexus_framework.Gateway.Answers.{BrokerAnswer, unavailable, replied, status_of}
use nexus_framework.Gateway.Proxy.{
  path_connection, passed_on, get_token_answer, token_core, refresh_answer, refresh_connection,
  changed_answer,
}

-- The status of the broker's answer; an answer that does not come is a bad gateway.
abbrev pub broker_status : {A : Type 0} → BrokerAnswer A → ℕ
broker_status unavailable = 502
broker_status (replied status _) = status

passed_on_status : (b : BrokerAnswer Value) → status_of (passed_on b) ≡ broker_status b
passed_on_status unavailable = refl
passed_on_status (replied status none) = refl
passed_on_status (replied status (some v)) = ground arith

refresh_status :
    (b : BrokerAnswer Value) → status_of (refresh_answer (token_core b)) ≡ broker_status b
unfolding token_core
refresh_status unavailable = refl
refresh_status (replied status none) = ground arith
refresh_status (replied status (some v)) = ground arith

changed_status : {A : Type 0} (b : BrokerAnswer A) → status_of (changed_answer b) ≡ broker_status b
changed_status unavailable = refl
changed_status (replied status _) = refl

-- The gateway answers a request for a token and a refresh with the status of the broker's answer,
-- or 502 if there is none, and with 400 for a path without an identifier, before it asks.
pub get_token_answer-status :
    (tokens refreshes : String → BrokerAnswer Value) (path : String)
    → (status_of (get_token_answer tokens path) ≡ (
        if path_connection "/v1/token/" path == ""
        then 400
        else broker_status (tokens (path_connection "/v1/token/" path))))
      × (status_of (refresh_connection refreshes path) ≡ (
          if path_connection "/v1/refresh/" path == ""
          then 400
          else broker_status (refreshes (path_connection "/v1/refresh/" path))))
unfolding get_token_answer refresh_connection
get_token_answer-status tokens refreshes path = (
  elim (Bool-cases (path_connection "/v1/token/" path == "")) [
    | inl empty ↦ rw empty refl
    | inr given ↦ rw given (passed_on_status (tokens _))
  ],
  elim (Bool-cases (path_connection "/v1/refresh/" path == "")) [
    | inl empty ↦ rw empty refl
    | inr given ↦ rw given (refresh_status (refreshes _))
  ],
)
