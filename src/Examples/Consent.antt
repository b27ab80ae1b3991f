-- ===== src/Examples/Consent.antt =====
-- nexus-broker/pkg/handlers/consent.go: the theorems at concrete inputs.
use nexus_framework.Prelude.{
  String, if◌then◌else◌, ◌≡◌, refl, true, false, none, some, [], ◌∷◌, ◌==◌, ok, err, inl, inr,
}
use nexus_framework.Prelude.Maps.{lookup}
use nexus_framework.Prelude.Int.{pos}
use nexus_framework.Json.{str}
use nexus_framework.Broker.Db.{Connection, Provider, find_connection, find_provider}
use nexus_framework.Broker.Pkce.{validate_pkce}
use nexus_framework.Broker.Exchange.{exchange_request}
use nexus_framework.Broker.Handler.{Response, World, Outside}
use nexus_framework.Broker.Callback.{exchange_of}
use nexus_framework.Broker.AuthUrl.{auth_settings}
use nexus_framework.Broker.Consent.{ConsentRequest, Fresh, new_connection, consent_spec, get_spec}
use nexus_framework.Broker.Handler.Outcomes.{Ends}
use nexus_framework.Prelude.Maps.{Assoc}
use nexus_framework.Broker.Consent.{consent_state, oauth2_consent}
use nexus_framework.Broker.Consent.Created.{with_connection}
use nexus_framework.Broker.Consent.Settings.{Fits, exchange_request-auth_settings}
use nexus_framework.Broker.Consent.Outcome.Refused.{Outcome, get_spec-Outcome}
use nexus_framework.Examples.Toy.{toy_outside, toy_config, no_faults, toy_world}

abbrev pub consent_outside : Outside
consent_outside = record toy_outside { now = pos 0 }

abbrev pub draws : Fresh
draws = record {
  random_bytes = some "v";
  new_uuid = 1;
  sha256 = λ s. s;
  column_uuid = λ s. if s == "p" then some 5 else none;
}

abbrev pub asked : ConsentRequest
asked = record {
  workspace_id = "w";
  provider_id = "p";
  scopes = some ("email" ∷ []);
  return_url = "https://app.example.com/done";
}

abbrev pub fresh_world : World
fresh_world = record toy_world { db = record toy_world.db { connections = [] } }

abbrev pub answer : Response
answer = consent_spec asked ("https://acme.example.com/auth", "ana1.asaiag")

abbrev pub started_world : World
started_world = (get_spec toy_config consent_outside draws no_faults (some asked) fresh_world).1

pub started :
    get_spec toy_config consent_outside draws no_faults (some asked) fresh_world
    ≡ (ok answer, started_world)
unfolding get_spec nexus_framework.Broker.Handler.◌>>=◌ nexus_framework.Broker.Handler.require
    nexus_framework.Broker.Handler.pure nexus_framework.Broker.Handler.◌>>◌
    nexus_framework.Broker.Handler.guard nexus_framework.Broker.Handler.get_db
    nexus_framework.Broker.Handler.reply nexus_framework.Broker.Handler.count_metric
    nexus_framework.Broker.Consent.consent_checks nexus_framework.Broker.Consent.consent_by_type
    nexus_framework.Broker.Consent.oauth2_consent nexus_framework.Broker.Consent.static_consent
    nexus_framework.Broker.Consent.create_connection nexus_framework.Broker.Consent.consent_state
    nexus_framework.Broker.Consent.consent_auth_url nexus_framework.Broker.AuthUrl.build_auth_url
    nexus_framework.Broker.Consent.count_consent nexus_framework.Broker.AuthUrl.has_openid
    nexus_framework.Broker.AuthUrl.set_all nexus_framework.Broker.AuthUrl.string_params
    auth_settings new_connection nexus_framework.Broker.ReturnUrl.is_return_url_allowed
    nexus_framework.Broker.ReturnUrl.is_allowed_host nexus_framework.Broker.ReturnUrl.matches_domain
    nexus_framework.Broker.ReturnUrl.normal_host nexus_framework.Broker.ReturnUrl.cut_wildcard
    nexus_framework.Broker.Pkce.generate_pkce nexus_framework.Broker.State.sign_state
    nexus_framework.Broker.Db.has_connection find_connection find_provider lookup
    nexus_framework.Prelude.Int.◌+ℤ◌ nexus_framework.Prelude.Maps.insert
    nexus_framework.Prelude.Text.to_lower nexus_framework.Prelude.Text.trim_space
    nexus_framework.Prelude.Text.has_suffix nexus_framework.Prelude.Text.equal_fold
    nexus_framework.Prelude.Text.join_space nexus_framework.Prelude.Text.trim_suffix_char
started = refl

get_spec-Outcome_example :
    Outcome toy_config consent_outside draws no_faults
      (some asked)
      fresh_world
      (get_spec toy_config consent_outside draws no_faults (some asked) fresh_world).0
      (get_spec toy_config consent_outside draws no_faults (some asked) fresh_world).1
get_spec-Outcome_example =
    get_spec-Outcome toy_config consent_outside draws no_faults (some asked) fresh_world

abbrev acme : Provider
acme = record {
  id = 5;
  name = "acme";
  auth_type = "oauth2";
  auth_url = some "https://acme.example.com/auth";
  token_url = some "https://acme.example.com/token";
  client_id = some "client";
  client_secret = some "secret";
  auth_header = none;
  api_base_url = none;
  user_info_endpoint = none;
  params = some (some (("prompt", str "consent") ∷ []));
}

abbrev consented_world : World
consented_world =
    (oauth2_consent toy_config consent_outside draws no_faults asked acme fresh_world).1

consented :
    Ends
      (oauth2_consent toy_config consent_outside draws no_faults asked acme)
      fresh_world
      ("https://acme.example.com/auth", "ana1.asaiag")
      consented_world
unfolding nexus_framework.Broker.Handler.◌>>=◌ nexus_framework.Broker.Handler.require
    nexus_framework.Broker.Handler.pure nexus_framework.Broker.Handler.◌>>◌
    nexus_framework.Broker.Handler.guard nexus_framework.Broker.Handler.get_db
    nexus_framework.Broker.Handler.reply nexus_framework.Broker.Handler.count_metric
    nexus_framework.Broker.Consent.consent_checks nexus_framework.Broker.Consent.consent_by_type
    nexus_framework.Broker.Consent.oauth2_consent nexus_framework.Broker.Consent.static_consent
    nexus_framework.Broker.Consent.create_connection nexus_framework.Broker.Consent.consent_state
    nexus_framework.Broker.Consent.consent_auth_url nexus_framework.Broker.AuthUrl.build_auth_url
    nexus_framework.Broker.Consent.count_consent nexus_framework.Broker.AuthUrl.has_openid
    nexus_framework.Broker.AuthUrl.set_all nexus_framework.Broker.AuthUrl.string_params
    auth_settings new_connection nexus_framework.Broker.ReturnUrl.is_return_url_allowed
    nexus_framework.Broker.ReturnUrl.is_allowed_host nexus_framework.Broker.ReturnUrl.matches_domain
    nexus_framework.Broker.ReturnUrl.normal_host nexus_framework.Broker.ReturnUrl.cut_wildcard
    nexus_framework.Broker.Pkce.generate_pkce nexus_framework.Broker.State.sign_state
    nexus_framework.Broker.Db.has_connection find_connection find_provider lookup
    nexus_framework.Prelude.Int.◌+ℤ◌ nexus_framework.Prelude.Maps.insert
    nexus_framework.Prelude.Text.to_lower nexus_framework.Prelude.Text.trim_space
    nexus_framework.Prelude.Text.has_suffix nexus_framework.Prelude.Text.equal_fold
    nexus_framework.Prelude.Text.join_space nexus_framework.Prelude.Text.trim_suffix_char
consented = refl

exchange_request-auth_settings_example :
    (c : Connection) × (endpoint : String) × (settings : Assoc String) × (consented_world
      ≡ with_connection c fresh_world)
    × (consent_outside.with_query endpoint settings ≡ some "https://acme.example.com/auth")
    × Fits toy_config consent_outside draws "c" acme c settings
unfolding nexus_framework.Broker.Pkce.generate_pkce lookup
    nexus_framework.Broker.AuthUrl.string_params
exchange_request-auth_settings_example =
    exchange_request-auth_settings toy_config consent_outside draws asked acme "c" no_faults
      fresh_world consented_world "https://acme.example.com/auth" "ana1.asaiag" "av" "aaav" refl
      consented refl refl refl refl
