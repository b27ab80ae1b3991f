-- ===== src/Broker/Token.antt =====
-- nexus-broker/pkg/handlers/callback.go, GetToken: the credentials of an active connection, with
-- the strategy by which an agent applies them.
pub mod RoundTrip
pub mod AfterCallback
use nexus_framework.Prelude.{
  ℕ, String, Bool, true, false, not, ◌&&◌, ◌||◌, Option, none, some, List, [], ◌∷◌, ◌++◌, ◌==◌,
  if◌then◌else◌, Result, ok, err,
}
use nexus_framework.Prelude.Text.{split}
use nexus_framework.Prelude.Maps.{Assoc, lookup, insert}
use nexus_framework.Prelude.Int.{ℤ, ltb_ℤ}
use nexus_framework.Json.{Value, str, bool, obj, of_assoc}
use nexus_framework.Broker.Db.{
  Db, Connection, Provider, TokenRow, Faults, select_joined, select_token, query, find_token,
  joined,
}
use nexus_framework.Broker.Handler.{
  Response, error, json, World, Config, Outside, Handler, ◌>>=◌, ◌>>◌, pure, reply, require, guard,
  get_db, count_metric, log_audit_event, decrypt, require_audited, path_id,
}

-- The expiry is added to the credentials where the row has one.
unfoldable pub with_expiry : Outside → Option ℤ → Assoc Value → Assoc Value
with_expiry out none creds = creds
with_expiry out (some t) creds =
    insert "expired" (bool (ltb_ℤ t out.now)) (insert "expires_at" (str (out.rfc3339 t)) creds)

abbrev object_at : String → Option (Option (Assoc Value)) → Option Value
object_at k (some (some params)) = elim (lookup k params) [
  | some (obj fields) ↦ some (obj fields)
  | _ ↦ none
]
object_at k _ = none

abbrev pub is_oauth2 : String → Bool
is_oauth2 auth_type = auth_type == "oauth2" || auth_type == ""

-- The strategy of a provider that names none.
unfoldable pub default_strategy : String → Value
default_strategy auth_type =
    if auth_type == "api_key"
    then obj (
        of_assoc (
          ("type", str "header")
          ∷ (
            "config",
            obj (
                of_assoc
                  (("header_name", str "X-API-Key") ∷ ("credential_field", str "api_key") ∷ [])),
          )
          ∷ []))
    else if auth_type == "basic_auth"
    then obj (of_assoc (("type", str "basic_auth") ∷ []))
    else obj (of_assoc (("type", str auth_type) ∷ []))

unfoldable pub strategy_of : Provider → Value
strategy_of p =
    if is_oauth2 p.auth_type
    then obj (of_assoc (("type", str "oauth2") ∷ []))
    else (elim (object_at "auth_strategy" p.params) [
      | none ↦ default_strategy p.auth_type
      | some s ↦ s
    ])

-- The payload: for OAuth 2 the credentials are at the root too.
unfoldable pub token_payload : Provider → Assoc Value → Assoc Value
token_payload p creds =
    insert "credentials" (obj (of_assoc creds))
      (insert "strategy" (strategy_of p) (if is_oauth2 p.auth_type then creds else []))

unfoldable pub not_active_response : String → Response
not_active_response status =
    if status == "attention"
    then json 409 (("error", str "attention_required") ∷ [])
    else error 403 "connection_not_active"

-- The identifier in the path.
unfoldable pub token_connection_id : Config → Outside → Faults → String → Handler ℕ
token_connection_id config out faults path = do
  text ← require (path_id (split b'/' path)) (Response.error 400 "invalid_path")
  require_audited config faults (out.parse_uuid text) none "token_retrieval_failed"
      (Response.error 400 "invalid_connection_id")

-- The credentials of a connection, decrypted and decoded.
unfoldable pub stored_credentials : Config → Outside → Faults → ℕ → Handler (Assoc Value)
stored_credentials config out faults id = do
  db ← get_db
  token ←
      require_audited config faults (query faults select_token (find_token id db.tokens)) (some id)
        "token_retrieval_failed" (Response.error 404 "token_not_found")
  text ←
      require_audited config faults (decrypt out config.encryption_key token.encrypted_data)
        (some id) "token_retrieval_failed" (Response.error 500 "decrypt_failed")
  creds ←
      require_audited config faults (out.of_json text) (some id) "token_retrieval_failed"
        (Response.error 500 "invalid_token_format")
  pure (with_expiry out token.expires_at creds)

abbrev has_key : Option Value → Bool
has_key none = false
has_key (some _) = true

-- GetToken
unfoldable pub get_token : Config → Outside → Faults → String → Handler Response
get_token config out faults path = do
  id ← token_connection_id config out faults path
  db ← get_db
  row ←
      require_audited config faults (query faults select_joined (joined id db)) (some id)
        "token_retrieval_failed" (Response.error 404 "connection_not_found")
  if (row.0).status == "active" then pure tt else (do
    log_audit_event config faults (some id) "token_retrieval_failed" []
    reply (not_active_response (row.0).status))
  creds ← stored_credentials config out faults id
  log_audit_event config faults (some id) "token_retrieved" []
  count_metric (λ m. record m {
    token_gets = m.token_gets ++ ((row.0).provider_id, has_key (lookup "id_token" creds)) ∷ [];
  })
  pure (json 200 (token_payload row.1 creds))
