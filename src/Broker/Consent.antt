-- ===== src/Broker/Consent.antt =====
-- nexus-broker/pkg/handlers/consent.go: GetSpec, which creates a pending connection and answers
-- with the URL where the user gives consent, and buildAuthURL.
pub mod Forms
pub mod Created
pub mod Settings
pub mod Outcome
use nexus_framework.Prelude.{
  ℕ, suc, String, Bool, true, false, not, ◌||◌, Option, none, some, List, [], ◌∷◌, ◌==◌,
  if◌then◌else◌, Result, ok, err,
}
use nexus_framework.Prelude.Text.{◌<>◌, equal_fold, trim_space, trim_suffix_char, join_space}
use nexus_framework.Prelude.Maps.{Assoc, insert}
use nexus_framework.Prelude.Int.{ℤ, ◌+ℤ◌}
use nexus_framework.Json.{Value, Items, null, str, arr, no_item, item}
use nexus_framework.Broker.State.{StateData, max_age, sign_state}
use nexus_framework.Broker.ReturnUrl.{is_return_url_allowed}
use nexus_framework.Broker.Db.{
  Connection, Provider, Faults, select_provider, insert_connection, query, find_provider,
  has_connection,
}
use nexus_framework.Broker.AuthUrl.{has_openid, build_auth_url}
use nexus_framework.Broker.Pkce.{generate_pkce}
use nexus_framework.Broker.Exchange.{flag_at}
use nexus_framework.Broker.Handler.{
  Response, json, dropped, Config, Outside, Metadata, Handler, ◌>>=◌, ◌>>◌, pure, reply, require,
  guard, get_db, count_metric, text_or_empty,
}

-- The body of a request; scopes that are missing are `none`.
pub record ConsentRequest : Type 0 where
  pub workspace_id : String
  pub provider_id : String
  pub scopes : Option (List String)
  pub return_url : String

-- What one request draws from crypto/rand and the UUID package, and SHA-256. `column_uuid` is how
-- the database reads a text that is compared with a column of UUIDs.
pub record Fresh : Type 0 where
  pub random_bytes : Option String
  pub new_uuid : ℕ
  pub sha256 : String → String
  pub column_uuid : String → Option ℕ

abbrev pub listed : Option (List String) → List String
listed none = []
listed (some l) = l

-- The INSERT into connections: the status of a new row is "pending", and its identifier must not be
-- there yet.
unfoldable pub create_connection : Faults → Connection → Handler (Unit {0})
create_connection faults c w =
    if faults insert_connection || has_connection w.db.connections c.id
    then (err (Response.error 500 "connection_create_failed"), w)
    else (ok tt, record w { db = record w.db { connections = c ∷ w.db.connections } })

unfoldable pub new_connection :
    Outside → Fresh → ConsentRequest → Provider → Option String → Connection
unfolding ◌+ℤ◌
new_connection out fresh request provider verifier = record {
  id = fresh.new_uuid;
  workspace_id = request.workspace_id;
  provider_id = provider.id;
  status = "pending";
  code_verifier = verifier;
  scopes = listed request.scopes;
  return_url = request.return_url;
  expires_at = out.now +ℤ max_age;
}

abbrev pub signed_text : {E : Type 0} → Result E String → Option String
signed_text (ok s) = some s
signed_text (err e) = none

-- The signed state of a new connection.
unfoldable pub consent_state : Config → Outside → Fresh → ConsentRequest → Option String
consent_state config out fresh request = signed_text (
    sign_state out.codec config.state_key (record {
      workspace_id = request.workspace_id;
      provider_id = request.provider_id;
      nonce = out.uuid_text fresh.new_uuid;
      iat = out.now;
    }))

-- The discovered authorization endpoint, if openid is asked for.
abbrev discovered_auth_url : String → Option Metadata → String
discovered_auth_url url none = url
discovered_auth_url url (some md) =
    if trim_space md.authorization_endpoint == "" then url else md.authorization_endpoint

unfoldable pub consent_auth_url : Outside → List String → String → String
consent_auth_url out scopes url =
    if has_openid scopes
    then (if url == "" then url else discovered_auth_url url (out.discover url))
    else url

-- GetSpec for a provider of type "oauth2" or "": the URL and the state
unfoldable pub oauth2_consent :
    Config → Outside → Fresh → Faults → ConsentRequest → Provider → Handler (String × String)
oauth2_consent config out fresh faults request provider = do
  pkce ←
      require (generate_pkce out.codec.encode fresh.sha256 fresh.random_bytes)
        (Response.error 500 "pkce_failed")
  create_connection faults (new_connection out fresh request provider (some pkce.0))
  state ← require (consent_state config out fresh request) (Response.error 500 "state_sign_failed")
  url ←
      require
        (build_auth_url config out
          (consent_auth_url out (listed request.scopes) (text_or_empty provider.auth_url))
          (text_or_empty provider.client_id) state pkce.1 (listed request.scopes) provider.params)
        (Response.error 500 "auth_url_failed")
  pure (url, state)

-- GetSpec for a provider of type "api_key" or "basic_auth"; a base URL that does not parse is a
-- dereference of nil.
unfoldable pub static_consent :
    Config → Outside → Fresh → Faults → ConsentRequest → Provider → Handler (String × String)
static_consent config out fresh faults request provider = do
  create_connection faults (new_connection out fresh request provider none)
  state ← require (consent_state config out fresh request) (Response.error 500 "state_sign_failed")
  url ←
      require (out.with_query (config.base_url <> "/auth/capture-schema") (("state", state) ∷ []))
        dropped
  pure (url, state)

abbrev items_of : List String → Items
items_of [] = no_item
items_of (s ∷ l) = item (str s) (items_of l)

-- A nil slice is written as null.
abbrev pub scopes_value : Option (List String) → Value
scopes_value none = null
scopes_value (some l) = arr (items_of l)

-- ConsentSpec
abbrev pub consent_spec : ConsentRequest → String × String → Response
consent_spec request (url, state) = json 200 (
    ("authUrl", str url)
    ∷ ("state", str state)
    ∷ ("scopes", scopes_value request.scopes)
    ∷ ("provider_id", str request.provider_id)
    ∷ [])

abbrev pub provider_row : Fresh → String → List Provider → Option Provider
provider_row fresh text l = elim (fresh.column_uuid text) [
  | none ↦ none
  | some id ↦ find_provider id l
]

-- The switch over the provider's type.
unfoldable pub consent_by_type :
    Config → Outside → Fresh → Faults → ConsentRequest → Provider → Handler (String × String)
consent_by_type config out fresh faults request provider =
    if provider.auth_type == "oauth2" || provider.auth_type == ""
    then oauth2_consent config out fresh faults request provider
    else if provider.auth_type == "api_key" || provider.auth_type == "basic_auth"
    then static_consent config out fresh faults request provider
    else reply (Response.error 400 "unsupported_auth_type")

-- The checks of GetSpec and the lookup of the provider; `none` is a body that does not decode.
unfoldable pub consent_checks :
    Config → Outside → Fresh → Faults → Option ConsentRequest → Handler (ConsentRequest × Provider)
consent_checks config out fresh faults body = do
  request ← require body (Response.error 400 "invalid_json")
  guard (not (request.workspace_id == "" || request.provider_id == "" || request.return_url == ""))
      (Response.error 400 "missing_fields")
  guard
      (is_return_url_allowed out.urls request.return_url config.enforce_return_url
        config.allowed_return_domains)
      (Response.error 400 "return_url_not_allowed")
  db ← get_db
  provider ←
      require (query faults select_provider (provider_row fresh request.provider_id db.providers))
        (Response.error 404 "provider_not_found")
  pure (request, provider)

-- The counters of the consents.
unfoldable pub count_consent : List String → Handler (Unit {0})
count_consent scopes = do
  count_metric (λ m. record m { consents = suc m.consents })
  count_metric
      (λ m. if has_openid scopes then record m { consents_openid = suc m.consents_openid } else m)

-- GetSpec
unfoldable pub get_spec :
    Config → Outside → Fresh → Faults → Option ConsentRequest → Handler Response
get_spec config out fresh faults body = do
  row ← consent_checks config out fresh faults body
  spec ← consent_by_type config out fresh faults row.0 row.1
  count_consent (listed (row.0).scopes)
  pure (consent_spec row.0 spec)
