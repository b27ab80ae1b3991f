-- ===== src/Broker/Callback.antt =====
-- nexus-broker/pkg/handlers/callback.go, Handle: the OAuth callback, in three parts.
pub mod Checks
pub mod Storage
pub mod Replay
pub mod Outcome
pub mod Completes
use nexus_framework.Prelude.{
  ℕ, suc, String, Bool, true, false, not, ◌&&◌, ◌||◌, Option, none, some, List, [], ◌∷◌, ◌==◌,
  if◌then◌else◌, Result, ok, err,
}
use nexus_framework.Prelude.Text.{◌<>◌, trim_space, trim_suffix_char}
use nexus_framework.Prelude.Maps.{Assoc, lookup}
use nexus_framework.Json.{Value, string_at}
use nexus_framework.Broker.State.{StateData, StateError, verify_state}
use nexus_framework.Broker.ReturnUrl.{is_return_url_allowed}
use nexus_framework.Broker.Db.{
  Db, Connection, Provider, Faults, select_pending, select_provider, query, pending_connection,
  find_provider,
}
use nexus_framework.Broker.Exchange.{Exchange, flag_at, contains_scope, exchange_code_for_tokens}
use nexus_framework.Broker.Handler.{
  Response, error, redirect, Metrics, World, Config, Outside, Metadata, Handler, ◌>>=◌, ◌>>◌, pure,
  reply, require, guard, get_db, count_metric, run, log_audit_event, update_connection_status,
  store_tokens, require_audited, text_or_empty, state_of,
}

pub record CallbackRequest : Type 0 where
  pub code : String
  pub state : String
  pub error : String
  pub error_description : String

-- The parameters, the state, and the connection's identifier.
unfoldable pub callback_connection_id : Config → Outside → Faults → CallbackRequest → Handler ℕ
callback_connection_id config out faults req =
    if not (req.error == "")
    then (do
      log_audit_event config faults none "oauth_error"
          (("error", req.error) ∷ ("description", req.error_description) ∷ [])
      reply (Response.error 400 "oauth_error"))
    else (do
      guard (not (req.code == "" || req.state == "")) (Response.error 400 "missing_params")
      d ←
          require_audited config faults
            (state_of (verify_state out.codec config.state_key out.now req.state)) none
            "state_verification_failed" (Response.error 400 "invalid_state")
      require (out.parse_uuid d.nonce) (Response.error 400 "invalid_connection_id"))

-- The pending connection and its provider.
unfoldable pub callback_rows : Config → Outside → Faults → ℕ → Handler (Connection × Provider)
callback_rows config out faults id = do
  db ← get_db
  connection ←
      require_audited config faults
        (query faults select_pending (pending_connection out.now id db.connections)) (some id)
        "connection_not_found" (Response.error 404 "connection_not_found")
  provider ←
      require_audited config faults
        (query faults select_provider (find_provider connection.provider_id db.providers)) (some id)
        "provider_not_found" (Response.error 500 "provider_not_found")
  pure (connection, provider)

abbrev discovered : String → Option Metadata → String
discovered url none = url
discovered url (some md) =
    if trim_space md.authorization_endpoint == "" then url else md.token_endpoint

-- The inputs of the exchange of a callback.
unfoldable pub exchange_of : Config → Outside → String → Connection → Provider → Exchange
exchange_of config out code connection provider =
    let token_url = text_or_empty provider.token_url in
    record {
      token_url = discovered token_url (out.discover token_url);
      client_id = text_or_empty provider.client_id;
      client_secret = text_or_empty provider.client_secret;
      code = code;
      code_verifier = text_or_empty connection.code_verifier;
      redirect_uri = trim_suffix_char b'/' config.base_url <> config.redirect_path;
      scopes = connection.scopes;
      auth_header = text_or_empty provider.auth_header;
      skip_scope = flag_at "skip_scope_on_exchange" provider.params;
    }

unfoldable pub callback_exchange :
    Config → Outside → String → Connection → Provider → Option (Assoc Value)
unfolding exchange_of
callback_exchange config out code connection provider =
    exchange_code_for_tokens out (exchange_of config out code connection provider)

-- The exchange of the code, with what its failure leaves behind.
unfoldable pub callback_tokens :
    Config → Outside → Faults → String → ℕ → Connection → Provider → Handler (Assoc Value)
callback_tokens config out faults code id connection provider =
    elim (callback_exchange config out code connection provider) [
      | none ↦ do
        log_audit_event config faults (some id) "token_exchange_failed" []
        update_connection_status faults id "failed"
        count_metric (λ m. record m { exchange_error = suc m.exchange_error })
        reply (Response.error 500 "token_exchange_failed")
      | some tokens ↦ do
        count_metric (λ m. record m { exchange_success = suc m.exchange_success })
        pure tokens
    ]

abbrev pub is_present : Option Value → Bool
is_present none = false
is_present (some _) = true

-- Whether the id_token of the tokens has to be verified, and fails.
unfoldable pub has_bad_id_token : Outside → String → Connection → Provider → Assoc Value → Bool
has_bad_id_token out state connection provider tokens =
    let raw = string_at "id_token" tokens in
    not (raw == "")
    && contains_scope connection.scopes "openid"
    && not (out.verify_id_token raw (text_or_empty provider.client_id) state)

-- The id_token of the answer: it is counted, and verified if the scope asks for it.
unfoldable pub callback_id_token :
    Config
    → Outside
    → Faults
    → String
    → ℕ
    → Connection
    → Provider
    → Assoc Value
    → Handler (Unit {0})
callback_id_token config out faults state id connection provider tokens = do
  count_metric (λ m.
      if is_present (lookup "id_token" tokens) then record m { id_tokens = suc m.id_tokens } else m)
  if has_bad_id_token out state connection provider tokens
      then (do
        log_audit_event config faults (some id) "id_token_verification_failed" []
        update_connection_status faults id "failed"
        reply (Response.error 401 "invalid_id_token"))
      else pure tt

-- Storing the tokens, and activating the connection.
unfoldable pub callback_store :
    Config → Outside → Faults → ℕ → Connection → Assoc Value → Handler (Unit {0})
callback_store config out faults id connection tokens = do
  stored ← store_tokens config out faults id tokens
  if stored then pure tt else (do
    log_audit_event config faults (some id) "token_storage_failed" []
    reply (Response.error 500 "token_store_failed"))
  updated ← update_connection_status faults id "active"
  if updated then pure tt else log_audit_event config faults (some id) "status_update_failed" []
  log_audit_event config faults (some id) "oauth_flow_completed"
      (("provider_id", out.uuid_text connection.provider_id) ∷ [])

-- The redirect to the return URL.
unfoldable pub callback_redirect :
    Config → Outside → Faults → ℕ → Connection → Provider → Handler Response
callback_redirect config out faults id connection provider = do
  guard
      (is_return_url_allowed out.urls connection.return_url config.enforce_return_url
        config.allowed_return_domains)
      (Response.error 400 "return_url_not_allowed")
  url ←
      require_audited config faults
        (out.with_query connection.return_url (
          ("status", "success")
          ∷ ("connection_id", out.uuid_text id)
          ∷ ("provider", provider.name)
          ∷ []))
        (some id) "invalid_return_url" (Response.error 500 "invalid_return_url")
  pure (redirect url)

-- Handle
unfoldable pub handle_callback : Config → Outside → Faults → CallbackRequest → Handler Response
handle_callback config out faults req = do
  id ← callback_connection_id config out faults req
  rows ← callback_rows config out faults id
  tokens ← callback_tokens config out faults req.code id rows.0 rows.1
  callback_id_token config out faults req.state id rows.0 rows.1 tokens
  callback_store config out faults id rows.0 tokens
  callback_redirect config out faults id rows.0 rows.1
