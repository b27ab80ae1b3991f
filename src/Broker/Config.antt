-- ===== src/Broker/Config.antt =====
-- nexus-broker/pkg/config/broker.go: the configuration of the broker from its environment. The
-- environment, base64, url.Parse and url.QueryEscape are arguments. The set of API keys is a list.
pub mod Laws
pub mod Offered
use nexus_framework.Prelude.{
  String, Bool, true, false, not, ◌&&◌, ◌||◌, Option, none, some, List, [], ◌∷◌, ◌++◌, ◌==◌,
  if◌then◌else◌, Result, ok, err, ◌>>=◌,
}
use nexus_framework.Prelude.Text.{
  ◌<>◌, trim_space, to_lower, equal_fold, split, contains, trim_prefix,
}
use nexus_framework.Prelude.Maps.{Assoc}
use nexus_framework.Broker.Keys.{KeyError, validate_key}

pub record BrokerConfig : Type 0 where
  pub port : String
  pub database_url : String
  pub base_url : String
  pub redis_url : String
  pub encryption_key : String
  pub state_key : String
  pub redirect_path : String
  pub require_api_key : Bool
  pub api_keys : List String
  pub require_allowlist : Bool
  pub allowed_cidrs : String
  pub enforce_return_url : Bool
  pub allowed_return_domains : List String
  pub enforce_db_ssl : Bool
  pub db_ssl_mode : String
  pub db_ssl_root_cert : String

-- A parsed data source name: its scheme, the root certificate of its query, and its text with some
-- parameters of the query set.
pub record DataSource : Type 0 where
  pub scheme : String
  pub root_cert : String
  pub with_parameters : Assoc String → String

pub record Sources : Type 0 where
  pub getenv : String → String
  pub decode : String → Option String
  pub parse : String → Option DataSource
  pub escape : String → String

pub data LoadError : Type 0 where
  no_database_url no_base_url : LoadError
  bad_key : String → KeyError → LoadError

unfoldable pub env_or : Sources → String → String → String
env_or env key fallback = if env.getenv key == "" then fallback else env.getenv key

unfoldable pub env_bool : Sources → String → Bool
env_bool env key = equal_fold (trim_space (env.getenv key)) "true"

-- The entries of a list between commas that are not blank.
unfoldable pub listed_domains : List String → List String
listed_domains [] = []
listed_domains (d ∷ l) =
    let rest = listed_domains l in
    let domain = to_lower (trim_space d) in if domain == "" then rest else domain ∷ rest

unfoldable pub listed_keys : List String → List String
listed_keys [] = []
listed_keys (k ∷ l) =
    let rest = listed_keys l in if trim_space k == "" then rest else trim_space k ∷ rest

unfoldable pub allowed_domains : Sources → List String
allowed_domains env =
    let raw = trim_space (env.getenv "ALLOWED_RETURN_DOMAINS") in
    if raw == "" then [] else listed_domains (split b',' raw)

unfoldable pub allowed_keys : Sources → List String
allowed_keys env =
    let several = trim_space (env.getenv "API_KEYS") in
    let single = trim_space (env.getenv "API_KEY") in
    (if several == "" then [] else listed_keys (split b',' several))
    ++ (if single == "" then [] else single ∷ [])

-- strings.HasPrefix
abbrev has_prefix : String → String → Bool
has_prefix s p = p <> trim_prefix p s == s

abbrev separator : String → String
separator dsn = if contains "?" dsn then "&" else "?"

abbrev with_mode : String → String → String
with_mode mode dsn =
    if contains "sslmode=" dsn then dsn else dsn <> separator dsn <> "sslmode=" <> mode

abbrev with_root_cert : Sources → String → String → String
with_root_cert env root_cert dsn =
    if not (root_cert == "") && not (contains "sslrootcert=" dsn)
    then dsn <> separator dsn <> "sslrootcert=" <> env.escape root_cert
    else dsn

abbrev parameters : String → String → DataSource → Assoc String
parameters mode root_cert u =
    ("sslmode", mode)
    ∷ (if not (root_cert == "") && u.root_cert == "" then ("sslrootcert", root_cert) ∷ [] else [])

abbrev enforced : Sources → String → String → String → Option DataSource → String
enforced env dsn mode root_cert none = with_root_cert env root_cert (with_mode mode dsn)
enforced env dsn mode root_cert (some u) =
    if u.scheme == "" || not (has_prefix dsn "postgres")
    then with_root_cert env root_cert (with_mode mode dsn)
    else u.with_parameters (parameters mode root_cert u)

unfoldable pub enforce_db_ssl_mode : Sources → String → Bool → String → String → String
enforce_db_ssl_mode env dsn enforce mode root_cert =
    if enforce then enforced env dsn mode root_cert (env.parse dsn) else dsn

abbrev key_error : {A : Type 0} → String → Result KeyError A → Result LoadError A
key_error name (ok key) = ok key
key_error name (err e) = err (bad_key name e)

abbrev pub key_of : Sources → String → Result LoadError String
key_of env name = key_error name (validate_key env.decode (env.getenv name))

-- The configuration, with its keys.
unfoldable pub configured : Sources → String → String → BrokerConfig
configured env encryption_key state_key =
    let enforce = env_bool env "ENFORCE_DB_SSL" in
    let mode = env_or env "DB_SSLMODE" "require" in
    let root_cert = trim_space (env.getenv "DB_SSLROOTCERT") in
    record {
      port = env_or env "PORT" "8080";
      database_url = enforce_db_ssl_mode env (env_or env "DATABASE_URL" "") enforce mode root_cert;
      base_url = env_or env "BASE_URL" "";
      redis_url = env_or env "REDIS_URL" "redis://localhost:6379/0";
      encryption_key = encryption_key;
      state_key = state_key;
      redirect_path = env_or env "REDIRECT_PATH" "/auth/callback";
      require_api_key = env_bool env "REQUIRE_API_KEY";
      api_keys = allowed_keys env;
      require_allowlist = env_bool env "REQUIRE_ALLOWLIST";
      allowed_cidrs = env_or env "ALLOWED_CIDRS" "127.0.0.1/32,::1/128";
      enforce_return_url = env_bool env "ENFORCE_RETURN_URL";
      allowed_return_domains = allowed_domains env;
      enforce_db_ssl = enforce;
      db_ssl_mode = mode;
      db_ssl_root_cert = root_cert;
    }

-- Load
unfoldable pub load : Sources → Result LoadError BrokerConfig
load env =
    if env_or env "DATABASE_URL" "" == ""
    then err no_database_url
    else if env_or env "BASE_URL" "" == ""
    then err no_base_url
    else key_of env "ENCRYPTION_KEY" >>= (λ encryption_key.
      key_of env "STATE_KEY" >>= (λ state_key. ok (configured env encryption_key state_key)))
