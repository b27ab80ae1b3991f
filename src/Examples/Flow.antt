-- ===== src/Examples/Flow.antt =====
-- nexus-broker: the theorems at concrete inputs.
use nexus_framework.Prelude.{
  ℕ, zero, suc, String, ◌≡◌, ◌≢◌, refl, Bool, true, false, Option, none, some, List, [], ◌∷◌, ◌==◌,
  if◌then◌else◌, Result, ok, err, ◌>>=◌, arith,
}
use nexus_framework.Prelude.Text.{split, has_suffix, to_lower, trim_space}
use nexus_framework.Prelude.Maps.{Assoc, lookup}
use nexus_framework.Prelude.Int.{pos}
use nexus_framework.Json.{Value, str}
use nexus_framework.Broker.State.{
  check_age, sign_state, verify_state, extract_connection_id, missing_nonce,
}
use nexus_framework.Broker.State.Laws.{
  verify_state-sign_state, verify_state_sound, extract_connection_id-verify_state,
}
use nexus_framework.Broker.ReturnUrl.{
  normal_host, cut_wildcard, is_allowed_host, is_return_url_allowed, matches_domain,
}
use nexus_framework.Broker.ReturnUrl.Laws.{AnyCovers, is_return_url_allowed_sound}
use nexus_framework.Broker.Db.{
  find_token, keep_owned, has_connection, pending_connection, find_connection, find_provider,
  set_status, upsert_token_row,
}
use nexus_framework.Broker.Handler.{
  Response, redirect, World, Outside, token_expiry, store_tokens, ◌>>◌, guard, pure,
  require_audited, require, get_db, count_metric, encrypt, log_audit_event, reply,
  update_connection_status,
}
use nexus_framework.Broker.Handler.Outcomes.{Ends}
use nexus_framework.Broker.Service.Evolves.{Evolves}
use nexus_framework.Broker.Callback.{
  CallbackRequest, handle_callback, callback_connection_id, callback_rows, callback_tokens,
  callback_exchange, callback_id_token, callback_redirect, callback_store, has_bad_id_token,
}
use nexus_framework.Broker.Callback.Outcome.{Completed, handle_callback-Ends}
use nexus_framework.Broker.Callback.Replay.{handle_callback_replay}
use nexus_framework.Broker.Token.{with_expiry, stored_credentials}
use nexus_framework.Broker.Token.RoundTrip.{stored_credentials-store_tokens}
use nexus_framework.Broker.Refresh.{refresh}
use nexus_framework.Broker.Refresh.Failures.{Failed, IsNamed, refresh_failed}
use nexus_framework.Broker.Service.{
  token, refreshing, consent, Event, served, cleaned, providers_changed, serve_all,
}
use nexus_framework.Broker.Service.Keeps.{IsDrawn, IsChanged, serve_all-Evolves}
use nexus_framework.Broker.Exchange.{
  contains_scope, exchange_code_for_tokens, exchange_request, uses_basic_auth,
}
use nexus_framework.Examples.Toy.{
  toy_data, toy_codec, toy_codec-IsLawful, toy_urls, toy_outside, toy_outside-Reads, toy_config,
  no_faults, toy_world,
}

abbrev signed : String
signed = "ana1.asaiag"

verify_state-sign_state_example : verify_state toy_codec "key" (pos 3) signed ≡ ok (toy_data "n1")
unfolding sign_state check_age
verify_state-sign_state_example =
    verify_state-sign_state toy_codec toy_codec-IsLawful "key" (pos 3) (toy_data "n1") signed refl
      refl

verify_state_sound_example :
    (a : String) × (b : String) × (bytes : String) × (split b'.' signed ≡ a ∷ b ∷ [])
    × (toy_codec.decode a ≡ some bytes)
    × (toy_codec.decode b ≡ some (toy_codec.mac "key" bytes))
    × (toy_codec.unmarshal bytes ≡ some (toy_data "n1"))
    × (check_age (pos 3) (toy_data "n1") ≡ ok (toy_data "n1"))
unfolding verify_state split check_age
verify_state_sound_example = verify_state_sound toy_codec "key" (pos 3) signed (toy_data "n1") refl

extract_connection_id-verify_state_example :
    extract_connection_id toy_codec "key" (pos 3) signed ≡ (
      verify_state toy_codec "key" (pos 3) signed >>= λ d.
      if d.nonce == "" then err missing_nonce else ok d.nonce)
extract_connection_id-verify_state_example =
    extract_connection_id-verify_state toy_codec "key" (pos 3) signed

is_return_url_allowed_sound_example :
    (host : String) × (toy_urls.host_of "https://app.example.com/done" ≡ some host)
    × ◌≢◌ {A = String} host ""
    × AnyCovers ("*.example.com" ∷ []) (normal_host toy_urls host)
unfolding nexus_framework.Broker.ReturnUrl.is_return_url_allowed
    nexus_framework.Broker.ReturnUrl.is_allowed_host nexus_framework.Broker.ReturnUrl.matches_domain
    normal_host nexus_framework.Prelude.Text.to_lower nexus_framework.Prelude.Text.trim_space
    nexus_framework.Broker.ReturnUrl.cut_wildcard nexus_framework.Prelude.Text.has_suffix
is_return_url_allowed_sound_example =
    is_return_url_allowed_sound toy_urls "https://app.example.com/done" ("*.example.com" ∷ []) refl

abbrev pub toy_callback : CallbackRequest
toy_callback = record { code = "c"; state = signed; error = ""; error_description = "" }

abbrev pub later_world : World
later_world = (handle_callback toy_config toy_outside no_faults toy_callback toy_world).1

completes :
    (handle_callback toy_config toy_outside no_faults toy_callback toy_world).0
    ≡ ok (redirect "https://app.example.com/done")
unfolding handle_callback nexus_framework.Broker.Handler.◌>>=◌ callback_connection_id ◌>>◌ guard
    pure require_audited verify_state split check_age require callback_rows get_db
    pending_connection find_connection find_provider callback_tokens callback_exchange
    callback_id_token callback_redirect callback_store has_bad_id_token set_status upsert_token_row
    contains_scope exchange_code_for_tokens exchange_request uses_basic_auth count_metric encrypt
    log_audit_event reply store_tokens token_expiry update_connection_status cut_wildcard
    is_allowed_host is_return_url_allowed matches_domain normal_host has_suffix to_lower trim_space
    lookup
completes = refl

pub completed :
    Ends
      (handle_callback toy_config toy_outside no_faults toy_callback)
      toy_world
      (redirect "https://app.example.com/done")
      later_world
completed = cc completes

handle_callback-Ends_example :
    Completed toy_config toy_outside no_faults toy_callback toy_world later_world
handle_callback-Ends_example =
    handle_callback-Ends toy_config toy_outside no_faults toy_callback toy_world
      {r = redirect "https://app.example.com/done"} {w' = later_world} completed

-- A consent, a request for a token and for a refresh, a tick of the cleanup, and no provider left.
abbrev busy : List Event
busy =
    served
      (consent
        (record {
          random_bytes = some "v";
          new_uuid = 7;
          sha256 = λ s. s;
          column_uuid = λ s. some 5;
        })
        (some (record {
          workspace_id = "w";
          provider_id = "p";
          scopes = none;
          return_url = "https://app.example.com/done";
        })))
      toy_outside no_faults
    ∷ served (token "/connections/n1/token") toy_outside no_faults
    ∷ served (refreshing "/connections/n1/refresh") toy_outside no_faults
    ∷ cleaned false
    ∷ providers_changed [] []
    ∷ []

handle_callback_replay_example :
    ¬ Ends
      (handle_callback toy_config toy_outside no_faults toy_callback)
      (serve_all toy_config busy later_world)
      (redirect "https://app.example.com/done")
      toy_world
handle_callback_replay_example =
    handle_callback_replay toy_config toy_outside no_faults toy_callback toy_world
      (redirect "https://app.example.com/done") later_world completed refl busy toy_outside
      no_faults toy_callback (redirect "https://app.example.com/done") toy_world refl refl refl

serve_all-Evolves_example :
    Evolves (IsDrawn busy) (IsChanged busy) toy_world (serve_all toy_config busy toy_world)
serve_all-Evolves_example = serve_all-Evolves toy_config busy toy_world

abbrev toy_tokens : Assoc Value
toy_tokens = ("access_token", str "secret") ∷ []

stored_credentials-store_tokens_example :
    stored_credentials toy_config toy_outside no_faults 1
      (store_tokens toy_config toy_outside no_faults 1 toy_tokens toy_world).1
    ≡ (
      ok (with_expiry toy_outside (token_expiry toy_outside.now toy_tokens) toy_tokens),
      (store_tokens toy_config toy_outside no_faults 1 toy_tokens toy_world).1,
    )
unfolding store_tokens nexus_framework.Broker.Handler.encrypt
stored_credentials-store_tokens_example =
    stored_credentials-store_tokens toy_config toy_outside toy_outside no_faults no_faults
      toy_outside-Reads 1 toy_tokens toy_world refl refl

-- The connection is not active yet, so there is nothing to refresh.
not_ok : ◌≢◌ {A = ℕ} 404 200
not_ok e = absurd (omega arith)

refresh_failed_example :
    Failed
      (IsNamed toy_config toy_outside no_faults "/connections/n1/refresh")
      toy_world
      (refresh toy_config toy_outside no_faults "/connections/n1/refresh" toy_world).1
unfolding refresh nexus_framework.Broker.Handler.◌>>=◌ nexus_framework.Broker.Refresh.refresh_row
    nexus_framework.Broker.Handler.require split nexus_framework.Broker.Handler.pure
    nexus_framework.Broker.Handler.get_db nexus_framework.Broker.Db.joined_active
    nexus_framework.Broker.Db.joined nexus_framework.Broker.Db.find_connection
    nexus_framework.Broker.Db.find_provider nexus_framework.Broker.Handler.reply
refresh_failed_example =
    refresh_failed toy_config toy_outside no_faults "/connections/n1/refresh" toy_world not_ok
