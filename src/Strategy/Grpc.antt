-- ===== src/Strategy/Grpc.antt =====
-- nexus-bridge/pkg/auth/strategies.go: the gRPC metadata of a strategy.
use nexus_framework.Prelude.{
  String, Option, none, some, [], ◌∷◌, ◌==◌, ◌||◌, if◌then◌else◌, Result, ok, err, ◌>>=◌,
}
use nexus_framework.Prelude.Text.{◌<>◌, to_lower}
use nexus_framework.Prelude.Maps.{Assoc, lookup}
use nexus_framework.Json.{Value, null, str, string_at}
use nexus_framework.Strategy.{
  AuthStrategy, Credentials, Crypto, AuthError, missing, not_text, unsupported, config_or,
  basic_value,
}

-- A header credential: missing or null, no text, or a text, which may be empty here.
abbrev pub text_field : String → Option Value → Result AuthError String
text_field f none = err (missing f)
text_field f (some null) = err (missing f)
text_field f (some (str s)) = ok s
text_field f (some _) = err (not_text f)

-- A user name or password: only its presence and its type are tested.
abbrev pub present_field : String → Option Value → Result AuthError String
present_field f none = err (missing f)
present_field f (some (str s)) = ok s
present_field f (some _) = err (not_text f)

unfoldable pub header_metadata : AuthStrategy → Credentials → Result AuthError (Assoc String)
header_metadata strategy creds =
    let custom = strategy.type == "header" in
    let named = string_at "header_name" strategy.config in
    let key =
      if custom
      then (if named == "" then "authorization" else to_lower named)
      else "authorization" in
    let field =
      if custom then config_or "credential_field" "api_key" strategy.config else "access_token" in
    let prefix = if custom then string_at "value_prefix" strategy.config else "Bearer " in
    do val ← text_field field (lookup field creds); ok ((key, prefix <> val) ∷ [])

unfoldable pub basic_metadata :
    Crypto → AuthStrategy → Credentials → Result AuthError (Assoc String)
basic_metadata crypto strategy creds =
    let user_field = config_or "username_field" "username" strategy.config in
    let pass_field = config_or "password_field" "password" strategy.config in
    do
      user ← present_field user_field (lookup user_field creds)
      pass ← present_field pass_field (lookup pass_field creds)
      ok (("authorization", basic_value crypto user pass) ∷ [])

unfoldable pub get_grpc_metadata :
    Crypto → AuthStrategy → Credentials → Result AuthError (Assoc String)
get_grpc_metadata crypto strategy creds =
    if strategy.type == "header" || strategy.type == "oauth2"
    then header_metadata strategy creds
    else if strategy.type == "basic_auth"
    then basic_metadata crypto strategy creds
    else err (unsupported strategy.type)
