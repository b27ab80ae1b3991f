-- ===== src/Gateway/Connect.antt =====
-- nexus-gateway/pkg/usecase/handler.go: RequestConnection, which resolves the provider, asks the
-- broker for a consent and reads the connection's identifier from the state.
pub mod Resolve
pub mod EndToEnd
use nexus_framework.Prelude.{
  ℕ, zero, suc, String, Bool, true, false, ◌&&◌, ◌||◌, Option, none, some, List, [], ◌∷◌, ◌==◌,
  ◌=?◌, if◌then◌else◌, Result, ok, err, ◌>>=◌,
}
use nexus_framework.Prelude.Text.{to_lower, trim_space}
use nexus_framework.Prelude.Int.{ℤ, pos}
use nexus_framework.Json.{Value, Items, null, num, str, obj, arr, no_item, item, of_assoc}
use nexus_framework.Broker.State.{Codec, StateError, extract_connection_id}
use nexus_framework.Broker.Consent.{scopes_value}
use nexus_framework.Gateway.Answers.{BrokerAnswer, unavailable, replied, Answer, failure, body}

pub record ConnectInput : Type 0 where
  pub user_id : String
  pub provider_id : String
  pub provider_name : String
  pub scopes : Option (List String)
  pub return_url : String

-- The broker's consent specification; a field may be missing.
pub record Spec : Type 0 where
  pub auth_url : Option String
  pub state : Option String
  pub scopes : Option (List String)
  pub provider_id : Option String

pub record ProviderRef : Type 0 where
  pub id : Option String
  pub name : Option String

-- The request of a consent: the workspace is the user.
pub record SpecRequest : Type 0 where
  pub workspace_id : String
  pub provider_id : String
  pub scopes : Option (List String)
  pub return_url : String

-- What the broker answers to the calls of this handler.
pub record BrokerClient : Type 0 where
  pub consent_spec : SpecRequest → BrokerAnswer Spec
  pub provider_by_name : String → BrokerAnswer ProviderRef
  pub providers : BrokerAnswer (List ProviderRef)

-- The key and the clock of the gateway, and its JSON, base64 and HMAC.
pub record Gateway : Type 0 where
  pub codec : Codec
  pub state_key : String
  pub now : ℤ

-- The errors, by the value that errors.Is and errors.As find.
pub data ConnectError : Type 0 where
  missing_fields invalid_state provider_not_found provider_ambiguous broker_unavailable
        broker_invalid_response empty_name :
      ConnectError
  broker_status : ℕ → ConnectError

pub record ConnectOutput : Type 0 where
  pub auth_url : String
  pub state : String
  pub scopes : Option (List String)
  pub provider_id : String
  pub connection_id : String

-- The value of a pointer, or the zero value.
abbrev pub text_of : Option String → String
text_of none = ""
text_of (some s) = s

-- The body of an answer that has to have status 200.
abbrev pub body_of : {A : Type 0} → BrokerAnswer A → Result ConnectError A
body_of unavailable = err broker_unavailable
body_of (replied status none) =
    if status =? 200 then err broker_invalid_response else err (broker_status status)
body_of (replied status (some a)) = if status =? 200 then ok a else err (broker_status status)

-- The identifier that the lookup by name gives, if it does.
abbrev named_id : BrokerAnswer ProviderRef → Option String
named_id (replied status (some p)) = if status =? 200 then p.id else none
named_id _ = none

abbrev pub is_named : String → Option String → Bool
is_named lower none = false
is_named lower (some name) = to_lower (trim_space name) == lower

-- The loop over the list: the last match and the number of matches.
abbrev pub count_match : String → ProviderRef → String × ℕ → String × ℕ
count_match lower p (id, matches) =
    if is_named lower p.name
    then (elim p.id [ none ↦ (id, matches) | some found ↦ (found, suc matches) ])
    else (id, matches)

unfoldable pub count_matches : String → List ProviderRef → String × ℕ → String × ℕ
count_matches lower [] found = found
count_matches lower (p ∷ l) found = count_matches lower l (count_match lower p found)

abbrev pub only_match : String × ℕ → Result ConnectError String
only_match (id, zero) = err provider_not_found
only_match (id, suc zero) = ok id
only_match (id, suc (suc n)) = err provider_ambiguous

-- The providers of the list with the name, in any case.
unfoldable pub resolve_in_list : String → List ProviderRef → Result ConnectError String
resolve_in_list name l = only_match (count_matches (to_lower name) l ("", 0))

-- resolveProviderID
unfoldable pub resolve_provider_id : BrokerClient → String → Result ConnectError String
resolve_provider_id broker provider_name =
    let name = trim_space provider_name in
    if name == "" then err empty_name else (elim (named_id (broker.provider_by_name name)) [
      | some id ↦ ok id
      | none ↦ body_of broker.providers >>= resolve_in_list name
    ])

unfoldable pub provider_id_of : BrokerClient → ConnectInput → Result ConnectError String
provider_id_of broker input =
    let given = trim_space input.provider_id in
    if given == ""
    then (if trim_space input.provider_name == ""
        then err missing_fields
        else resolve_provider_id broker input.provider_name)
    else ok given

abbrev pub state_result : {A : Type 0} → Result StateError A → Result ConnectError A
state_result (ok a) = ok a
state_result (err e) = err invalid_state

-- RequestConnectionCore
unfoldable pub request_connection_core :
    Gateway → BrokerClient → ConnectInput → Result ConnectError ConnectOutput
request_connection_core gateway broker input = do
  provider_id ← provider_id_of broker input
  spec ← body_of (
      broker.consent_spec (record {
        workspace_id = input.user_id;
        provider_id = provider_id;
        scopes = input.scopes;
        return_url = input.return_url;
      }))
  connection_id ←
      state_result
        (extract_connection_id gateway.codec gateway.state_key gateway.now (text_of spec.state))
  ok (record {
    auth_url = text_of spec.auth_url;
    state = text_of spec.state;
    scopes = spec.scopes;
    provider_id = text_of spec.provider_id;
    connection_id = connection_id;
  })

-- The answer to each error.
unfoldable pub connect_failure : String → ConnectError → Answer
connect_failure name invalid_state = failure 400 "invalid_state" []
connect_failure name provider_not_found =
    failure 404 "provider_not_found" (("provider_name", str name) ∷ [])
connect_failure name provider_ambiguous =
    failure 409 "provider_ambiguous" (("provider_name", str name) ∷ [])
connect_failure name (broker_status status) =
    failure 502 "broker_error" (("status", num (pos status)) ∷ [])
connect_failure name broker_unavailable = failure 502 "broker_unavailable" []
connect_failure name broker_invalid_response = failure 502 "broker_invalid_response" []
connect_failure name missing_fields = failure 502 "upstream_error" []
connect_failure name empty_name = failure 502 "upstream_error" []

abbrev pub connect_answer : String → Result ConnectError ConnectOutput → Answer
connect_answer name (err e) = connect_failure name e
connect_answer name (ok out) = body 200 (
    obj (
      of_assoc (
        ("authUrl", str out.auth_url)
        ∷ ("state", str out.state)
        ∷ ("scopes", scopes_value out.scopes)
        ∷ ("provider_id", str out.provider_id)
        ∷ ("connection_id", str out.connection_id)
        ∷ [])))

-- RequestConnection; `none` is a body that does not decode.
unfoldable pub request_connection : Gateway → BrokerClient → Option ConnectInput → Answer
request_connection gateway broker none = failure 400 "invalid_json" []
request_connection gateway broker (some input) =
    if input.return_url == "" || input.provider_id == "" && input.provider_name == ""
    then failure 400 "missing_fields" []
    else connect_answer input.provider_name (request_connection_core gateway broker input)
