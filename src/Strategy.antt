-- ===== src/Strategy.antt =====
-- nexus-bridge/pkg/auth/strategies.go and token.go: the strategies that put credentials into an
-- HTTP request or into gRPC metadata. A request is its query values, its header and its body.
pub mod Grpc
pub mod Laws
pub mod Agreement
use nexus_framework.Prelude.{
  String, Option, none, some, List, [], ◌∷◌, ◌++◌, ◌==◌, if◌then◌else◌, Result, ok, err, ◌>>=◌,
}
use nexus_framework.Prelude.Text.{◌<>◌, canonical_key}
use nexus_framework.Prelude.Maps.{Assoc, lookup, insert}
use nexus_framework.Prelude.Int.{ℤ}
use nexus_framework.Json.{Value, null, str, string_at}

pub record AuthStrategy : Type 0 where
  pub type : String
  pub config : Assoc Value

-- Credentials, a map from field names to values.
abbrev pub Credentials : Type 0
Credentials = Assoc Value

pub record Token : Type 0 where
  pub strategy : AuthStrategy
  pub credentials : Credentials
  pub expires_at : ℤ

-- A body that can be read, or one whose reader fails.
pub data Body : Type 0 where
  text : String → Body
  broken : Body

pub record Request : Type 0 where
  pub query : Assoc (List String)
  pub header : Assoc (List String)
  pub body : Option Body

pub data AuthError : Type 0 where
  missing : String → AuthError
  not_text : String → AuthError
  config_required : String → AuthError
  unsupported : String → AuthError
  read_failed : AuthError
  sign_failed : AuthError

pub record AwsCredentials : Type 0 where
  pub access_key_id : String
  pub secret_access_key : String
  pub session_token : String

-- The cryptography of Go's standard library, and the signer of the AWS SDK.
pub record Crypto : Type 0 where
  pub hmac_sha256 : String → String → String
  pub hmac_sha1 : String → String → String
  pub sha256 : String → String
  pub hex : String → String
  pub base64 : String → String
  pub sign_http : AwsCredentials → Request → String → String → String → Option Request

-- req.Header.Set
abbrev pub set_header : String → String → Request → Request
set_header name v req = record req { header = insert (canonical_key name) (v ∷ []) req.header }

abbrev pub values_of : Option (List String) → List String
values_of none = []
values_of (some vs) = vs

-- q.Add followed by the write back to the URL
abbrev pub add_query : String → String → Request → Request
add_query name v req = record req {
  query = insert name (values_of (lookup name req.query) ++ v ∷ []) req.query;
}

-- A setting with its default, for one that is missing, empty or no text.
abbrev pub config_or : String → String → Assoc Value → String
config_or k fallback config = let s = string_at k config in if s == "" then fallback else s

-- The two checks on a credential: it is there, and it is a text that is not empty.
abbrev pub non_empty : String → Option Value → Result AuthError String
non_empty f none = err (missing f)
non_empty f (some null) = err (missing f)
non_empty f (some (str s)) = if s == "" then err (not_text f) else ok s
non_empty f (some _) = err (not_text f)

unfoldable pub require_field : String → Credentials → Result AuthError String
require_field f creds = non_empty f (lookup f creds)

-- The request after a strategy, changed in place, and the error.
abbrev pub finish : Request → Result AuthError Request → Request × Option AuthError
finish req (ok r) = (r, none)
finish req (err e) = (req, some e)

unfoldable pub apply_header_auth : Request → Assoc Value → Credentials → Request × Option AuthError
apply_header_auth req config creds =
    let header_name = config_or "header_name" "Authorization" config in
    let field = config_or "credential_field" "api_key" config in
    let prefix = string_at "value_prefix" config in
    finish req (do
      val ← require_field field creds
      ok (set_header header_name (if prefix == "" then val else prefix <> val) req))

pub apply_query_auth : Request → Assoc Value → Credentials → Request × Option AuthError
apply_query_auth req config creds =
    let param_name = string_at "param_name" config in
    let field = config_or "credential_field" "api_key" config in
    finish req (
      if param_name == ""
      then err (config_required "param_name")
      else (do val ← require_field field creds; ok (add_query param_name val req)))

-- The value that Go's SetBasicAuth writes.
abbrev pub basic_value : Crypto → String → String → String
basic_value crypto user pass = "Basic " <> crypto.base64 (user <> ":" <> pass)

pub apply_basic_auth : Crypto → Request → Assoc Value → Credentials → Request × Option AuthError
apply_basic_auth crypto req config creds =
    let user_field = config_or "username_field" "username" config in
    let pass_field = config_or "password_field" "password" config in
    finish req (do
      username ← require_field user_field creds
      password ← require_field pass_field creds
      ok (set_header "Authorization" (basic_value crypto username password) req))

-- io.ReadAll of the body; what is read is put back, so the request keeps its body.
abbrev pub read_body : Option Body → Result AuthError String
read_body none = ok ""
read_body (some (text b)) = ok b
read_body (some broken) = err read_failed

abbrev digest : Crypto → String → String → String → Result AuthError String
digest crypto algo secret body =
    if algo == "sha256"
    then ok (crypto.hmac_sha256 secret body)
    else if algo == "sha1"
    then ok (crypto.hmac_sha1 secret body)
    else err (unsupported algo)

abbrev encode_signature : Crypto → String → String → Result AuthError String
encode_signature crypto encoding sum =
    if encoding == "hex"
    then ok (crypto.hex sum)
    else if encoding == "base64"
    then ok (crypto.base64 sum)
    else err (unsupported encoding)

pub apply_hmac_payload : Crypto → Request → Assoc Value → Credentials → Request × Option AuthError
apply_hmac_payload crypto req config creds =
    let header_name = string_at "header_name" config in
    let secret_field = config_or "secret_field" "api_secret" config in
    let algo = config_or "algo" "sha256" config in
    let encoding = config_or "encoding" "hex" config in
    finish req (
      if header_name == "" then err (config_required "header_name") else (do
        secret ← require_field secret_field creds
        body ← read_body req.body
        sum ← digest crypto algo secret body
        signature ← encode_signature crypto encoding sum
        ok (set_header header_name signature req)))

-- The payload hash is in the header before the signer runs, and stays there if it fails.
abbrev sign_with :
    Crypto → AwsCredentials → Request → String → String → String → Request × Option AuthError
sign_with crypto keys req hash service region =
    let hashed = set_header "X-Amz-Content-Sha256" hash req in
    elim (crypto.sign_http keys hashed hash service region) [
      | none ↦ (hashed, some sign_failed)
      | some signed ↦ (signed, none)
    ]

abbrev aws_inputs : Request → Credentials → Result AuthError (AwsCredentials × String)
aws_inputs req creds = do
  access_key ← require_field "access_key" creds
  secret_key ← require_field "secret_key" creds
  body ← read_body req.body
  ok (
    record {
      access_key_id = access_key;
      secret_access_key = secret_key;
      session_token = string_at "session_token" creds;
    },
    body,
  )

pub apply_aws_sigv4 : Crypto → Request → Assoc Value → Credentials → Request × Option AuthError
apply_aws_sigv4 crypto req config creds =
    let region = config_or "region" "us-east-1" config in
    let service = string_at "service" config in
    if service == "" then (req, some (config_required "service")) else elim (aws_inputs req creds) [
      | err e ↦ (req, some e)
      | ok (keys, body) ↦ sign_with crypto keys req (crypto.hex (crypto.sha256 body)) service region
    ]

abbrev pub oauth_config : Assoc Value
oauth_config =
    ("header_name", str "Authorization")
    ∷ ("value_prefix", str "Bearer ")
    ∷ ("credential_field", str "access_token")
    ∷ []

unfoldable pub apply_authentication :
    Crypto → Request → AuthStrategy → Credentials → Request × Option AuthError
apply_authentication crypto req strategy creds =
    if strategy.type == "header"
    then apply_header_auth req strategy.config creds
    else if strategy.type == "query_param"
    then apply_query_auth req strategy.config creds
    else if strategy.type == "basic_auth"
    then apply_basic_auth crypto req strategy.config creds
    else if strategy.type == "hmac_payload"
    then apply_hmac_payload crypto req strategy.config creds
    else if strategy.type == "aws_sigv4"
    then apply_aws_sigv4 crypto req strategy.config creds
    else if strategy.type == "oauth2"
    then apply_header_auth req oauth_config creds
    else (req, some (unsupported strategy.type))
