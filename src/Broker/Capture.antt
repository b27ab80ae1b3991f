-- ===== src/Broker/Capture.antt =====
-- nexus-broker/pkg/handlers/callback.go: GetCaptureSchema and SaveCredential, the form in which a
-- user enters a static credential.
use nexus_framework.Prelude.{
  String, Bool, true, false, not, ◌&&◌, Option, none, some, [], ◌∷◌, ◌==◌,
}
use nexus_framework.Prelude.Text.{◌<>◌}
use nexus_framework.Prelude.Maps.{Assoc, lookup}
use nexus_framework.Json.{Value, str}
use nexus_framework.Broker.State.{verify_state}
use nexus_framework.Broker.Db.{
  Provider, Faults, select_connection, select_provider, select_joined, query, find_connection,
  find_provider, joined,
}
use nexus_framework.Broker.Exchange.{validate_credentials}
use nexus_framework.Broker.Handler.{
  Response, json, redirect, Config, Outside, Handler, ◌>>=◌, ◌>>◌, pure, require, guard, get_db,
  update_connection_status, store_tokens, text_or_empty, state_of,
}

-- The provider's params: NULL has no settings, and text that is no object is an error.
abbrev decoded_params : Option (Option (Assoc Value)) → Option (Assoc Value)
decoded_params none = some []
decoded_params (some params) = params

-- GetCaptureSchema
unfoldable pub get_capture_schema : Config → Outside → Faults → String → Handler Response
get_capture_schema config out faults state = do
  d ←
      require (state_of (verify_state out.codec config.state_key out.now state))
        (Response.error 400 "invalid_state")
  provider_id ← require (out.parse_uuid d.provider_id) (Response.error 400 "invalid_provider_id")
  db ← get_db
  provider ←
      require (query faults select_provider (find_provider provider_id db.providers))
        (Response.error 404 "provider_not_found")
  params ← require (decoded_params provider.params) (Response.error 500 "params_parse_failed")
  schema ← require (lookup "credential_schema" params) (Response.error 404 "schema_not_found")
  pure (json 200 (("provider_name", str provider.name) ∷ ("schema", schema) ∷ []))

-- The body of a submission; credentials that are missing are the empty map.
pub record Submission : Type 0 where
  pub state : String
  pub credentials : Assoc Value

-- Whether the credentials are tested before they are stored, and fail the test.
unfoldable pub is_rejected : Outside → Provider → Assoc Value → Bool
is_rejected out p creds =
    let base_url = text_or_empty p.api_base_url in
    let endpoint = text_or_empty p.user_info_endpoint in
    let tested =
      validate_credentials out p.auth_type (text_or_empty p.auth_header) base_url endpoint creds in
    not (endpoint == "") && not (base_url == "") && (elim tested [ none ↦ false | some _ ↦ true ])

-- SaveCredential; `none` is a body that does not decode.
unfoldable pub save_credential : Config → Outside → Faults → Option Submission → Handler Response
save_credential config out faults body = do
  submission ← require body (Response.error 400 "invalid_json")
  d ←
      require (state_of (verify_state out.codec config.state_key out.now submission.state))
        (Response.error 400 "invalid_state")
  id ← require (out.parse_uuid d.nonce) (Response.error 400 "invalid_connection_id")
  db ← get_db
  connection ←
      require (query faults select_connection (find_connection id db.connections))
        (Response.error 404 "connection_not_found")
  row ←
      require (query faults select_joined (joined id db))
        (Response.error 500 "provider_config_failed")
  guard (not (is_rejected out row.1 submission.credentials))
      (Response.error 400 "invalid_credentials")
  stored ← store_tokens config out faults id submission.credentials
  guard stored (Response.error 500 "credential_store_failed")
  updated ← update_connection_status faults id "active"
  guard updated (Response.error 500 "status_update_failed")
  pure (redirect (connection.return_url <> "?status=success&connection_id=" <> out.uuid_text id))
