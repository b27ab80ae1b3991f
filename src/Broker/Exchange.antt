-- ===== src/Broker/Exchange.antt =====
-- nexus-broker/pkg/handlers/callback.go: the requests that the broker sends to a provider.
use nexus_framework.Prelude.{
  ℕ, String, Bool, true, false, not, ◌&&◌, ◌||◌, Option, none, some, List, [], ◌∷◌, ◌==◌, ◌=?◌,
  if◌then◌else◌,
}
use nexus_framework.Prelude.Text.{
  ◌<>◌, to_lower, trim_space, equal_fold, join_space, trim_right_char, trim_left_char,
}
use nexus_framework.Prelude.Maps.{Assoc, lookup, insert}
use nexus_framework.Json.{Value, bool, string_at}
use nexus_framework.Broker.Handler.{HttpAnswer, unreachable, answered, OutRequest, Outside}

-- containsScope
unfoldable pub contains_scope : List String → String → Bool
contains_scope [] target = false
contains_scope (s ∷ l) target =
    to_lower (trim_space s) == to_lower (trim_space target) || contains_scope l target

-- A boolean setting of the provider's params, off where it is not given.
abbrev pub as_bool : Option Value → Bool
as_bool (some (bool b)) = b
as_bool _ = false

abbrev pub flag_at : String → Option (Option (Assoc Value)) → Bool
flag_at k (some (some params)) = as_bool (lookup k params)
flag_at k _ = false

abbrev pub set_unless_empty : String → String → Assoc String → Assoc String
set_unless_empty k v form = if v == "" then form else insert k v form

abbrev pub form_headers : Assoc String
form_headers =
    ("Content-Type", "application/x-www-form-urlencoded") ∷ ("Accept", "application/json") ∷ []

abbrev is_empty : List String → Bool
is_empty [] = true
is_empty (_ ∷ _) = false

-- The inputs of exchangeCodeForTokens.
pub record Exchange : Type 0 where
  pub token_url : String
  pub client_id : String
  pub client_secret : String
  pub code : String
  pub code_verifier : String
  pub redirect_uri : String
  pub scopes : List String
  pub auth_header : String
  pub skip_scope : Bool

-- Whether the client's credentials go into the Authorization header.
unfoldable pub uses_basic_auth : String → Bool
uses_basic_auth auth_header =
    equal_fold auth_header "client_secret_basic" || equal_fold auth_header "Basic"

-- The request of exchangeCodeForTokens.
unfoldable pub exchange_request : Outside → Exchange → OutRequest
exchange_request out x =
    let basic = uses_basic_auth x.auth_header in
    let start = insert "code" x.code (insert "grant_type" "authorization_code" []) in
    let proven = set_unless_empty "code_verifier" x.code_verifier start in
    let located = insert "redirect_uri" x.redirect_uri proven in
    let identified =
      if basic
      then located
      else set_unless_empty "client_secret" x.client_secret
          (set_unless_empty "client_id" x.client_id located) in
    let scoped =
      if not (is_empty x.scopes) && not x.skip_scope
      then insert "scope" (join_space x.scopes) identified
      else identified in
    record {
      url = x.token_url;
      form = scoped;
      header =
          if basic
          then insert "Authorization"
              ("Basic " <> out.base64 (x.client_id <> ":" <> x.client_secret)) form_headers
          else form_headers;
    }

-- The tokens of an answer with status 200.
abbrev tokens_of : Outside → HttpAnswer → Option (Assoc Value)
tokens_of out unreachable = none
tokens_of out (answered status body) = if status =? 200 then out.of_json body else none

-- exchangeCodeForTokens
unfoldable pub exchange_code_for_tokens : Outside → Exchange → Option (Assoc Value)
exchange_code_for_tokens out x = tokens_of out (out.send (exchange_request out x))

-- The outcome of refreshTokens: the tokens, or the status that came with the error.
pub data Refreshed : Type 0 where
  tokens : Assoc Value → Refreshed
  failed : ℕ → Refreshed

abbrev decoded : ℕ → Option (Assoc Value) → Refreshed
decoded status none = failed status
decoded status (some t) = tokens t

abbrev refreshed_of : Outside → HttpAnswer → Refreshed
refreshed_of out unreachable = failed 0
refreshed_of out (answered status body) =
    if status =? 200 then decoded status (out.of_json body) else failed status

-- refreshTokens
unfoldable pub refresh_tokens : Outside → String → String → String → String → Refreshed
refresh_tokens out token_url client_id client_secret refresh_token = refreshed_of out (
    out.send (record {
      url = token_url;
      form = insert "client_secret" client_secret (
          insert "client_id" client_id
            (insert "refresh_token" refresh_token (insert "grant_type" "refresh_token" [])));
      header = form_headers;
    }))

-- validateCredentials: `none` is success.
pub data CredentialError : Type 0 where
  key_required not_reached rejected : CredentialError

abbrev judge : HttpAnswer → Option CredentialError
judge unreachable = some not_reached
judge (answered status body) = if status =? 401 || status =? 403 then some rejected else none

abbrev test_request : String → String → String → OutRequest
test_request url name value = record { url = url; form = []; header = (name, value) ∷ [] }

unfoldable pub validate_credentials :
    Outside → String → String → String → String → Assoc Value → Option CredentialError
validate_credentials out auth_type auth_header api_base_url endpoint creds =
    let url = trim_right_char b'/' api_base_url <> "/" <> trim_left_char b'/' endpoint in
    let api_key = string_at "api_key" creds in
    let header_name = if auth_header == "" then "Authorization" else auth_header in
    if auth_type == "api_key"
    then (if api_key == ""
        then some key_required
        else if to_lower header_name == "authorization"
        then judge (out.send (test_request url "Authorization" ("Bearer " <> api_key)))
        else judge (out.send (test_request url header_name api_key)))
    else if auth_type == "basic_auth"
    then judge (
        out.send (
          test_request url "Authorization" (
            "Basic "
            <> out.base64 (string_at "username" creds <> ":" <> string_at "password" creds))))
    else none
