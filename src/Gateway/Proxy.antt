-- ===== src/Gateway/Proxy.antt =====
-- nexus-gateway/pkg/usecase/handler.go: the handlers that pass a request on to the broker.
pub mod Statuses
pub mod Pending
use nexus_framework.Prelude.{
  ℕ, String, Bool, true, false, ◌&&◌, ◌||◌, Option, none, some, List, [], ◌∷◌, ◌==◌, ◌=?◌, leb, ltb,
  if◌then◌else◌, Result, ok, err,
}
use nexus_framework.Prelude.Text.{trim_space, trim_prefix}
use nexus_framework.Prelude.Maps.{Assoc, lookup}
use nexus_framework.Prelude.Int.{pos}
use nexus_framework.Json.{Value, num, str, obj, of_assoc}
use nexus_framework.Gateway.Answers.{
  BrokerAnswer, unavailable, replied, Answer, failure, body, bare, plain,
}

-- The identifier in a path.
unfoldable pub path_connection : String → String → String
path_connection prefix path = trim_space (trim_prefix prefix path)

-- CheckConnectionCore: the status that the broker's answer to a request for the token stands for
unfoldable pub check_connection_core : {A : Type 0} → BrokerAnswer A → Option String
check_connection_core unavailable = none
check_connection_core (replied status _) = some (
    if status =? 200
    then "active"
    else if leb 400 status && ltb status 500
    then "failed"
    else "pending")

-- CheckConnection
unfoldable pub check_connection : {A : Type 0} → (String → BrokerAnswer A) → String → Answer
check_connection tokens path =
    let id = path_connection "/v1/check-connection/" path in
    if id == "" then plain 400 else (elim (check_connection_core (tokens id)) [
      | none ↦ plain 502
      | some status ↦ body 200 (obj (of_assoc (("status", str status) ∷ [])))
    ])

-- An answer that is passed on: its body if it is there and the status is 200, else its status.
abbrev pub passed_on : BrokerAnswer Value → Answer
passed_on unavailable = failure 502 "broker_unavailable" []
passed_on (replied status none) = bare status
passed_on (replied status (some v)) = if status =? 200 then body 200 v else bare status

-- GetToken
unfoldable pub get_token_answer : (String → BrokerAnswer Value) → String → Answer
get_token_answer tokens path =
    let id = path_connection "/v1/token/" path in
    if id == "" then failure 400 "missing_fields" [] else passed_on (tokens id)

-- GetTokenCore and RefreshConnectionCore: the decoded body or nothing, the status, and whether
-- there is an error
unfoldable pub token_core : BrokerAnswer Value → Option Value × ℕ × Bool
token_core unavailable = (none, 502, true)
token_core (replied status none) = (none, status, status =? 200)
token_core (replied status (some v)) =
    if status =? 200 then (some v, 200, false) else (none, status, false)

-- RefreshConnection, on what the core gives
abbrev pub refresh_answer : Option Value × ℕ × Bool → Answer
refresh_answer (_, status, true) = failure status "broker_unavailable" []
refresh_answer (none, status, false) = bare status
refresh_answer (some v, status, false) = if status =? 200 then body 200 v else bare status

unfoldable pub refresh_connection : (String → BrokerAnswer Value) → String → Answer
refresh_connection refreshes path =
    let id = path_connection "/v1/refresh/" path in
    if id == "" then failure 400 "missing_fields" [] else refresh_answer (token_core (refreshes id))

-- GetProvidersCore and GetProviders
unfoldable pub get_providers : BrokerAnswer Value → Answer
get_providers unavailable = failure 502 "broker_unavailable" []
get_providers (replied status none) =
    if status =? 200
    then failure 502 "broker_unavailable" []
    else failure 502 "broker_error" (("status", num (pos status)) ∷ [])
get_providers (replied status (some v)) =
    if status =? 200
    then body 200 v
    else failure 502 "broker_error" (("status", num (pos status)) ∷ [])

-- An answer to the registration of a provider: the status, the decoded body if the status is 201,
-- the text of the body, and the error field of that text if it is JSON.
pub record Created : Type 0 where
  pub status : ℕ
  pub created : Option Value
  pub text : String
  pub error_field : Option String

abbrev error_code : Created → String
error_code c =
    if c.text == ""
    then "broker_error"
    else (elim c.error_field [ none ↦ "broker_error" | some code ↦ code ])

abbrev created_answer : Option Value → Answer
created_answer none = bare 201
created_answer (some v) = body 201 v

-- CreateProvider, on the decoded body
unfoldable pub create_provider : {A : Type 0} → (A → Option Created) → Option A → Answer
create_provider register none = failure 400 "invalid_json" []
create_provider register (some profile) = elim (register profile) [
  | none ↦ failure 502 "broker_unavailable" []
  | some c ↦
      if c.status =? 201 || c.status =? 200
      then created_answer c.created
      else failure c.status (error_code c) []
]

-- The identifier of a provider in a path has to be a UUID.
abbrev with_id : (String → Option ℕ) → String → (ℕ → Answer) → Answer
with_id parse_uuid id_text f = elim (parse_uuid id_text) [
  | none ↦ failure 400 "invalid_id" []
  | some id ↦ f id
]

-- GetProvider
unfoldable pub get_provider : (String → Option ℕ) → (ℕ → BrokerAnswer Value) → String → Answer
get_provider parse_uuid fetch id_text = with_id parse_uuid id_text (λ id. passed_on (fetch id))

-- A change answers with the broker's status alone.
abbrev pub changed_answer : {A : Type 0} → BrokerAnswer A → Answer
changed_answer unavailable = failure 502 "broker_unavailable" []
changed_answer (replied status _) = bare status

abbrev with_body : {A : Type 0} → Option A → (A → Answer) → Answer
with_body none f = failure 400 "invalid_json" []
with_body (some a) f = f a

-- UpdateProvider and PatchProvider: the same handler with two calls of the client
unfoldable pub update_provider :
    {A B : Type 0} → (String → Option ℕ) → (ℕ → A → BrokerAnswer B) → String → Option A → Answer
update_provider parse_uuid change id_text request =
    with_id parse_uuid id_text (λ id. with_body request (λ a. changed_answer (change id a)))

-- DeleteProvider
unfoldable pub delete_provider :
    {B : Type 0} → (String → Option ℕ) → (ℕ → BrokerAnswer B) → String → Answer
delete_provider parse_uuid remove id_text =
    with_id parse_uuid id_text (λ id. changed_answer (remove id))

-- The broker's answer to a submitted credential: its status and its Location header.
pub record Submitted : Type 0 where
  pub status : ℕ
  pub location : String

-- The first value of a query parameter, or the empty text.
abbrev query_value : String → Assoc String → Value
query_value k query = elim (lookup k query) [ none ↦ str "" | some v ↦ str v ]

-- CaptureCredential, on the body if it can be read. `builds` says whether the request to the broker
-- can be built, and `query_of` is url.Parse with Query.
unfoldable pub capture_credential :
    Bool → (String → Option (Assoc String)) → (String → Option Submitted) → Option String → Answer
capture_credential builds query_of submit none = failure 400 "read_error" []
capture_credential false query_of submit (some request) = failure 500 "request_error" []
capture_credential true query_of submit (some request) = elim (submit request) [
  | none ↦ failure 502 "broker_unavailable" []
  | some answer ↦
      if answer.status =? 302
      then (if answer.location == ""
          then failure 502 "broker_error" []
          else (elim (query_of answer.location) [
            | none ↦ failure 502 "broker_error" []
            | some query ↦ body 200 (
                obj (
                  of_assoc (
                    ("connection_id", query_value "connection_id" query)
                    ∷ ("status", query_value "status" query)
                    ∷ ("redirect_url", str answer.location)
                    ∷ [])))
          ]))
      else failure 502 "broker_error" []
]
