-- ===== src/Broker/Refresh.antt =====
-- nexus-broker/pkg/handlers/callback.go, Refresh: new tokens for an active connection.
pub mod Failures
use nexus_framework.Prelude.{
  ℕ, String, Bool, true, false, not, ◌&&◌, ◌||◌, Option, none, some, List, [], ◌∷◌, ◌==◌,
  if◌then◌else◌, Result, ok, err, leb, ltb,
}
use nexus_framework.Prelude.Text.{split}
use nexus_framework.Prelude.Maps.{Assoc}
use nexus_framework.Json.{Value, str, string_at}
use nexus_framework.Broker.Db.{
  Db, Connection, Provider, TokenRow, Faults, select_active, select_provider, select_token, query,
  find_token, find_provider, joined_active,
}
use nexus_framework.Broker.Exchange.{Refreshed, tokens, failed, refresh_tokens}
use nexus_framework.Broker.Handler.{
  Response, error, json, World, Config, Outside, Handler, ◌>>=◌, ◌>>◌, pure, reply, require, guard,
  get_db, log_audit_event, update_connection_status, store_tokens, decrypt, text_or_empty, path_id,
}

-- The connection and its provider's authentication type.
unfoldable pub refresh_row :
    Config → Outside → Faults → String → Handler (ℕ × (Connection × Provider))
refresh_row config out faults path = do
  text ← require (path_id (split b'/' path)) (Response.error 400 "invalid_path")
  id ← require (out.parse_uuid text) (Response.error 400 "invalid_connection_id")
  db ← get_db
  row ←
      require (query faults select_active (joined_active id db))
        (Response.error 404 "connection_not_found")
  pure (id, row)

-- Only OAuth 2 can refresh.
unfoldable pub check_refreshable : String → Handler (Unit {0})
check_refreshable auth_type =
    if auth_type == "api_key" || auth_type == "basic_auth"
    then reply (Response.error 400 "static_token")
    else if auth_type == "oauth2" || auth_type == ""
    then pure tt
    else reply (Response.error 500 "unsupported_auth_type")

-- The provider's row and the stored refresh token.
unfoldable pub refresh_inputs :
    Config → Outside → Faults → ℕ → Connection → Handler (Provider × String)
refresh_inputs config out faults id connection = do
  db ← get_db
  provider ←
      require (query faults select_provider (find_provider connection.provider_id db.providers))
        (Response.error 500 "provider_not_found")
  token ←
      require (query faults select_token (find_token id db.tokens))
        (Response.error 404 "token_not_found")
  text ←
      require (decrypt out config.encryption_key token.encrypted_data)
        (Response.error 500 "decrypt_failed")
  current ← require (out.of_json text) (Response.error 500 "token_parse_failed")
  guard (not (string_at "refresh_token" current == "")) (Response.error 400 "no_refresh_token")
  pure (provider, string_at "refresh_token" current)

-- What the provider's answer leads to.
unfoldable pub refresh_outcome : Config → Outside → Faults → ℕ → Refreshed → Handler Response
refresh_outcome config out faults id (failed status) =
    if leb 400 status && ltb status 500
    then (do
      log_audit_event config faults (some id) "token_refresh_fatal" []
      update_connection_status faults id "attention"
      pure (json 409 (("error", str "attention_required") ∷ [])))
    else reply (Response.error 502 "upstream_error")
refresh_outcome config out faults id (tokens new) = do
  stored ← store_tokens config out faults id new
  guard stored (Response.error 500 "token_store_failed")
  pure (json 200 new)

-- Refresh
unfoldable pub refresh : Config → Outside → Faults → String → Handler Response
refresh config out faults path = do
  row ← refresh_row config out faults path
  check_refreshable ((row.1).1).auth_type
  inputs ← refresh_inputs config out faults row.0 (row.1).0
  refresh_outcome config out faults row.0 (
      refresh_tokens out (text_or_empty (inputs.0).token_url) (text_or_empty (inputs.0).client_id)
        (text_or_empty (inputs.0).client_secret) inputs.1)
