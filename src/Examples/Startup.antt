-- ===== src/Examples/Startup.antt =====
-- nexus-broker/pkg/config, pkg/caching and cmd/nexus-broker: the configuration, the routes and the
-- cache at concrete inputs.
use nexus_framework.Prelude.{
  ℕ, suc, String, true, false, ◌≡◌, refl, ◌||◌, none, some, [], ◌∷◌, ◌==◌, if◌then◌else◌, arith, ok,
}
use nexus_framework.Prelude.Text.{trim_space, split, equal_fold, to_lower, ◌<>◌}
use nexus_framework.Prelude.Maps.{lookup}
use nexus_framework.Broker.Handler.{HttpAnswer, answered}
use nexus_framework.Broker.Keys.{validate_key}
use nexus_framework.Broker.Access.{Net}
use nexus_framework.Broker.Config.{
  BrokerConfig, Sources, env_or, env_bool, listed_domains, listed_keys, allowed_domains,
  allowed_keys, enforce_db_ssl_mode, configured, load,
}
use nexus_framework.Broker.Config.Laws.{IsWellFormed, load-IsWellFormed}
use nexus_framework.Broker.Provider.Fields.{Columns}
use nexus_framework.Broker.Provider.Handlers.{Registry, Setting}
use nexus_framework.Broker.Routes.{ProviderRequest}
use nexus_framework.Broker.Discovery.{discover}
use nexus_framework.Broker.Caching.{CachingTransport, Cached, cache_get, client_get}
use nexus_framework.Broker.Caching.Laws.{metadata_url, discover-round_trip}

abbrev key_text : String
key_text = "0123456789abcdef0123456789abcdef"

abbrev toy_env : String → String
toy_env x =
    if x == "DATABASE_URL"
    then "postgres://db/nexus"
    else if x == "BASE_URL"
    then "https://broker.example.com"
    else if x == "ENCRYPTION_KEY" || x == "STATE_KEY"
    then key_text
    else if x == "REQUIRE_API_KEY"
    then " True"
    else if x == "API_KEYS"
    then "first, second"
    else ""

abbrev toy_sources : Sources
toy_sources = record { getenv = toy_env; decode = λ s. some s; parse = λ s. none; escape = λ s. s }

abbrev loaded_config : BrokerConfig
loaded_config = record {
  port = "8080";
  database_url = "postgres://db/nexus";
  base_url = "https://broker.example.com";
  redis_url = "redis://localhost:6379/0";
  encryption_key = key_text;
  state_key = key_text;
  redirect_path = "/auth/callback";
  require_api_key = true;
  api_keys = "first" ∷ "second" ∷ [];
  require_allowlist = false;
  allowed_cidrs = "127.0.0.1/32,::1/128";
  enforce_return_url = false;
  allowed_return_domains = [];
  enforce_db_ssl = false;
  db_ssl_mode = "require";
  db_ssl_root_cert = "";
}

config_loads : load toy_sources ≡ ok loaded_config
unfolding load env_or env_bool listed_domains listed_keys allowed_domains allowed_keys
    enforce_db_ssl_mode configured validate_key trim_space split equal_fold to_lower
config_loads = refl

load-IsWellFormed_example : IsWellFormed toy_sources loaded_config
load-IsWellFormed_example = load-IsWellFormed toy_sources loaded_config config_loads

abbrev toy_net : Net
toy_net = record {
  parse_ip = λ s. none;
  parse_cidr = λ s. none;
  contains = λ n ip. false;
  split_host_port = λ s. none;
}

abbrev no_columns : Columns
no_columns = record {
  as_text = λ v. none;
  as_bool = λ v. none;
  as_texts = λ v. none;
  as_json = λ v. none;
}

abbrev toy_setting : Setting
toy_setting = record {
  faults = λ s. none;
  audit = true;
  audit_fails = false;
  parse_uuid = λ s. some 7;
  columns = no_columns;
}

abbrev guessing : ProviderRequest
guessing = record {
  method = "DELETE";
  path = "/providers/7";
  caller = record { api_key = "guess"; forwarded_for = ""; remote_addr = "" };
  profile_body = none;
  patch_body = none;
  register_body = none;
  fresh_id = 8;
}

abbrev toy_registry : Registry
toy_registry = record { rows = []; events = [] }

-- A transport at a time; the server fails at first.
abbrev toy_transport : ℕ → ℕ → CachingTransport ℕ
toy_transport now status = record {
  now = now;
  ttl = 3600;
  get_fails = false;
  set_fails = false;
  dump = λ n text. some text;
  read = λ text. some (503, text);
  transport = λ method url asked. (answered status "down", suc asked);
}

abbrev empty_cache : Cached ℕ
empty_cache = record { entries = []; servers = 0 }

abbrev issuer_url : String
issuer_url = "https://issuer.example.com/"

issuer_is_set : (trim_space issuer_url == "") ≡ false
unfolding trim_space
issuer_is_set = refl

cache_misses :
    cache_get (toy_transport 10 503) ("http:" <> metadata_url issuer_url) empty_cache.entries ≡ none
unfolding cache_get lookup
cache_misses = refl

-- A client that gives a redirect back as it is.
abbrev not_followed : String → ℕ → String → Cached ℕ → HttpAnswer × Cached ℕ
not_followed url status text c = (answered status text, c)

-- The cache after the failed answer.
abbrev after_failure : Cached ℕ
after_failure =
    (client_get not_followed (toy_transport 10 503) (metadata_url issuer_url) empty_cache).1

discover-round_trip_example :
    (discover
        (λ u. none)
        (λ url. (client_get not_followed (toy_transport 100 200) url after_failure).0)
        (λ s. none)
        issuer_url
        ""
      ≡ discover (λ u. none) (λ url. answered 503 "down") (λ s. none) issuer_url "")
    × ((client_get not_followed (toy_transport 100 200) (metadata_url issuer_url) after_failure).1
        ≡ after_failure)
discover-round_trip_example =
    discover-round_trip not_followed (toy_transport 10 503) (toy_transport 100 200) empty_cache
      (λ u. none) (λ s. none) issuer_url "" "down" "down" 503 issuer_is_set refl cache_misses refl
      refl refl refl refl refl (omega arith)
