-- ===== src/Sdk.antt =====
-- nexus-sdk/client.go: the client of the gateway. The context, the network and the random source
-- are an environment; a request is sent once for each attempt.
pub mod Attempts
pub mod Waits
pub mod Create
use nexus_framework.Prelude.{
  ℕ, zero, suc, String, Bool, true, false, ◌&&◌, ◌||◌, Option, none, some, List, [], ◌∷◌, ◌==◌,
  ◌=?◌, ◌*◌, ◌^◌, min, leb, ltb, if◌then◌else◌, Result, ok, err, ◌>>=◌,
}
use nexus_framework.Prelude.Text.{◌<>◌, trim_space}
use nexus_framework.Prelude.Maps.{Assoc}
use nexus_framework.Prelude.Int.{ℤ, pos, negsuc, pos_part, ltb_ℤ, leb_ℤ}
use nexus_framework.Json.{Value}

-- RetryPolicy; the delays are nanoseconds.
pub record RetryPolicy : Type 0 where
  pub retries : ℤ
  pub min_delay : ℤ
  pub max_delay : ℤ
  pub retry_on_429 : Bool

-- RetryPolicy.normalized
unfoldable pub normalized : RetryPolicy → RetryPolicy
normalized p =
    let least = if leb_ℤ p.min_delay (pos 0) then pos 200000000 else p.min_delay in
    let most = if leb_ℤ p.max_delay (pos 0) then pos 2000000000 else p.max_delay in
    record p {
      retries = if ltb_ℤ p.retries (pos 0) then pos 0 else p.retries;
      min_delay = least;
      max_delay = if ltb_ℤ most least then least else most;
    }

-- The base of backoff, before its jitter: 2 ^ attempt times the minimum, at most 2 ^ 10 times, cut
-- at the maximum. The floating-point products of the code are exact here.
unfoldable pub backoff_base : ℕ → ℕ → ℕ → ℕ
backoff_base attempt min_delay max_delay =
    let base = min_delay * 2 ^ (min attempt 10) in if ltb max_delay base then max_delay else base

pub record SdkRequest : Type 0 where
  pub method : String
  pub url : String
  pub header : Assoc String
  pub body : Option String

-- What comes of sending a request once.
pub data Sent : Type 0 where
  not_sent : Sent
  answered : ℕ → String → Sent

pub data SdkError : Type 0 where
  missing_connection_id send_failed context_done bad_body : SdkError
  retryable_status : ℕ → SdkError
  envelope : String → SdkError
  gateway_error : ℕ → String → SdkError

pub record Network : Type 0 where
  pub answer : SdkRequest → ℕ → Sent
  pub is_done : SdkRequest → ℕ → Bool  -- whether the context ends the wait after an attempt
  pub jittered : ℕ → ℕ → ℕ  -- the wait after an attempt, of a base
  pub code_field : String → Option String  -- the field code of a body that is JSON
  pub path_escape : String → String
  pub to_text : Assoc Value → Option String
  pub of_text : String → Option (Assoc Value)

-- readGatewayError
unfoldable pub read_gateway_error : Network → ℕ → String → SdkError
read_gateway_error net status text = elim (net.code_field text) [
  | none ↦ gateway_error status (trim_space text)
  | some code ↦ if code == "" then gateway_error status (trim_space text) else envelope code
]

-- Whether a status is to be tried again.
unfoldable pub is_retryable : RetryPolicy → ℕ → Bool
is_retryable p status =
    status =? 502 || status =? 503 || status =? 504 || p.retry_on_429 && status =? 429

-- One attempt of do: the body of a 2xx answer
unfoldable pub attempt : Network → RetryPolicy → Sent → Result SdkError String
attempt net p not_sent = err send_failed
attempt net p (answered status text) =
    if leb 200 status && ltb status 300
    then ok text
    else if is_retryable p status
    then err (retryable_status status)
    else err (read_gateway_error net status text)

-- The loop of do from an attempt on, with the number of attempts that are left after it: the result
-- and the waits.
abbrev after_wait : ℕ → Result SdkError String × List ℕ → Result SdkError String × List ℕ
after_wait delay (r, waits) = (r, delay ∷ waits)

unfoldable pub do_from :
    Network → RetryPolicy → SdkRequest → ℕ → ℕ → Result SdkError String × List ℕ
do_from net p request i zero = (attempt net p (net.answer request i), [])
do_from net p request i (suc left) =
    let rest = do_from net p request (suc i) left in
    let delay = net.jittered i (backoff_base i (pos_part p.min_delay) (pos_part p.max_delay)) in
    elim (attempt net p (net.answer request i)) [
      | ok text ↦ (ok text, [])
      | err e ↦
          if net.is_done request i then (err context_done, delay ∷ []) else after_wait delay rest
    ]

-- do
unfoldable pub do_request : Network → RetryPolicy → SdkRequest → Result SdkError String × List ℕ
do_request net policy request =
    let p = normalized policy in do_from net p request 0 (pos_part p.retries)

pub record Client : Type 0 where
  pub gateway_base_url : String
  pub retry_policy : RetryPolicy

abbrev decoded : Network → Result SdkError String → Result SdkError (Assoc Value)
decoded net (err e) = err e
decoded net (ok text) = elim (net.of_text text) [ none ↦ err bad_body | some v ↦ ok v ]

-- RequestConnection
unfoldable pub request_connection : Network → Client → Assoc Value → Result SdkError (Assoc Value)
request_connection net c input = elim (net.to_text input) [
  | none ↦ err bad_body
  | some text ↦ decoded net (
      (do_request net c.retry_policy (record {
        method = "POST";
        url = c.gateway_base_url <> "/v1/request-connection";
        header = ("Content-Type", "application/json") ∷ [];
        body = some text;
      })).0)
]

-- A request for a connection, which has to be named.
abbrev connection_call : Network → Client → String → String → String → Result SdkError (Assoc Value)
connection_call net c method path connection_id =
    if trim_space connection_id == ""
    then err missing_connection_id
    else decoded net (
        (do_request net c.retry_policy (record {
          method = method;
          url = c.gateway_base_url <> path <> net.path_escape connection_id;
          header = [];
          body = none;
        })).0)

-- CheckConnection, up to the field status of the body; GetToken; RefreshConnection
unfoldable pub check_connection : Network → Client → String → Result SdkError (Assoc Value)
check_connection net c id = connection_call net c "GET" "/v1/check-connection/" id

unfoldable pub get_token : Network → Client → String → Result SdkError (Assoc Value)
get_token net c id = connection_call net c "GET" "/v1/token/" id

unfoldable pub refresh_connection : Network → Client → String → Result SdkError (Assoc Value)
refresh_connection net c id = connection_call net c "POST" "/v1/refresh/" id

-- WaitForActive, on what its calls of CheckConnection give and whether the context ends each wait;
-- `none` is that the fuel, the number of polls, is used up.
abbrev pub is_final : String → Bool
is_final status = status == "active" || status == "failed"

unfoldable pub wait_for_active :
    (ℕ → Result SdkError String) → (ℕ → Bool) → ℕ → ℕ → Option (Result SdkError String)
wait_for_active poll is_done zero i = none
wait_for_active poll is_done (suc fuel) i =
    let rest = wait_for_active poll is_done fuel (suc i) in
    elim (poll i) [
      | err e ↦ some (err e)
      | ok status ↦
          if is_final status
          then some (ok status)
          else if is_done i
          then some (err context_done)
          else rest
    ]
