-- ===== src/Broker/Config/Laws.antt =====
-- nexus-broker/pkg/config/broker.go: what Load guarantees of a configuration.
use Prim.Native.String.{len}
use nexus_framework.Prelude.{
  String, true, false, ◌≡◌, ◌≢◌, ◌⊎◌, ◌↔◌, ap, refl, subst, inl, inr, some, List, [], ◌∷◌, ◌++◌,
  ◌==◌, ◌=?◌, ok, arith, eq_iff, Bool-cases, Option-cases, Result-cases, if◌then◌else◌,
}
use nexus_framework.Prelude.Text.{trim_space, to_lower, split}
use nexus_framework.Broker.Keys.{validate_key}
use nexus_framework.Broker.Access.{is_known_key}
use nexus_framework.Broker.Config.Offered.{IsOffered, is_known_key-allowed_keys, allowed_keys_known}
use nexus_framework.Broker.Config.{
  BrokerConfig, Sources, env_bool, enforce_db_ssl_mode, env_or, listed_domains, listed_keys,
  allowed_domains, allowed_keys, key_of, configured, load,
}

-- Each entry has a property.
abbrev pub All : (String → Type 0) → List String → Type 0
All P [] = Unit
All P (x ∷ l) = P x × All P l

abbrev pub IsFilled : String → Type 0
IsFilled s = s ≢ ""

All-append : (P : String → Type 0) (l m : List String) → All P l → All P m → All P (l ++ m)
All-append P [] m h g = g
All-append P (x ∷ l) m h g = (h.0, All-append P l m h.1 g)

pub tested-IsFilled : {s : String} → (s == "") ≡ false → IsFilled s
tested-IsFilled {s = s} e same = ground (arith, eq_iff s "")

listed_domains-IsFilled : (l : List String) → All IsFilled (listed_domains l)
unfolding listed_domains
listed_domains-IsFilled [] = tt
listed_domains-IsFilled (d ∷ l) = elim (Bool-cases (to_lower (trim_space d) == "")) [
  | inl blank ↦ rw blank (listed_domains-IsFilled l)
  | inr set ↦ rw set (tested-IsFilled set, listed_domains-IsFilled l)
]

listed_keys-IsFilled : (l : List String) → All IsFilled (listed_keys l)
unfolding listed_keys
listed_keys-IsFilled [] = tt
listed_keys-IsFilled (k ∷ l) = elim (Bool-cases (trim_space k == "")) [
  | inl blank ↦ rw blank (listed_keys-IsFilled l)
  | inr set ↦ rw set (tested-IsFilled set, listed_keys-IsFilled l)
]

allowed_domains-IsFilled : (env : Sources) → All IsFilled (allowed_domains env)
unfolding allowed_domains
allowed_domains-IsFilled env =
    elim (Bool-cases (trim_space (env.getenv "ALLOWED_RETURN_DOMAINS") == "")) [
      | inl blank ↦ rw blank tt
      | inr set ↦
          rw set (
            listed_domains-IsFilled (split b',' (trim_space (env.getenv "ALLOWED_RETURN_DOMAINS"))))
    ]

several-IsFilled : (s : String) → All IsFilled (if s == "" then [] else listed_keys (split b',' s))
several-IsFilled s = elim (Bool-cases (s == "")) [
  | inl blank ↦ rw blank tt
  | inr set ↦ rw set (listed_keys-IsFilled (split b',' s))
]

single-IsFilled : (s : String) → All IsFilled (if s == "" then [] else s ∷ [])
single-IsFilled s = elim (Bool-cases (s == "")) [
  | inl blank ↦ rw blank tt
  | inr set ↦ rw set (tested-IsFilled set, tt)
]

allowed_keys-IsFilled : (env : Sources) → All IsFilled (allowed_keys env)
unfolding allowed_keys
allowed_keys-IsFilled env =
    All-append IsFilled _ _ (several-IsFilled (trim_space (env.getenv "API_KEYS")))
      (single-IsFilled (trim_space (env.getenv "API_KEY")))

pub env_or-IsFilled :
    (env : Sources) (key fallback : String) → IsFilled fallback → IsFilled (env_or env key fallback)
unfolding env_or
env_or-IsFilled env key fallback h = elim (Bool-cases (env.getenv key == "")) [
  | inl blank ↦ rw blank h
  | inr set ↦ rw set (tested-IsFilled set)
]

env_or_empty : (env : Sources) (key : String) → env_or env key "" ≡ env.getenv key
unfolding env_or
env_or_empty env key = ground (arith, eq_iff (env.getenv key) "")

-- A key of 32 bytes that is the decoded value of its variable.
abbrev pub IsKeyOf : Sources → String → String → Type 0
IsKeyOf env name key =
    (len key ≡ 32) × (env.decode (env.getenv name) ≡ some key) × IsFilled (env.getenv name)

key_of-IsKeyOf :
    (env : Sources) (name key : String) → key_of env name ≡ ok key → IsKeyOf env name key
unfolding validate_key
key_of-IsKeyOf env name key e = elim (Bool-cases (env.getenv name == "")) [
  | inl blank ↦ absurd (ground arith)
  | inr set ↦ elim (Option-cases (env.decode (env.getenv name))) [
    | inl fails ↦ absurd (ground arith)
    | inr (decoded, decodes) ↦ elim (Bool-cases (len decoded =? 32)) [
      | inl long ↦
          let same : decoded ≡ key = ground arith in
          subst
            (λ k.
              (len k ≡ 32) × (env.decode (env.getenv name) ≡ some k) × IsFilled (env.getenv name))
            same (ground arith, decodes, tested-IsFilled set)
      | inr other ↦ absurd (ground arith)
    ]
  ]
]

-- What the rest of the broker takes for granted.
pub record IsWellFormed (env : Sources) (cfg : BrokerConfig) : Type 0 where
  pub encryption_key : IsKeyOf env "ENCRYPTION_KEY" cfg.encryption_key
  pub state_key : IsKeyOf env "STATE_KEY" cfg.state_key
  pub base_url : (cfg.base_url ≡ env.getenv "BASE_URL") × IsFilled cfg.base_url
  pub database_url :
      IsFilled (env.getenv "DATABASE_URL")
      × (cfg.database_url
          ≡ enforce_db_ssl_mode env
              (env.getenv "DATABASE_URL")
              cfg.enforce_db_ssl
              cfg.db_ssl_mode
              cfg.db_ssl_root_cert)
      × ((cfg.enforce_db_ssl ≡ true) ⊎ (cfg.database_url ≡ env.getenv "DATABASE_URL"))
  pub defaults :
      IsFilled cfg.port
      × IsFilled cfg.redis_url
      × IsFilled cfg.redirect_path
      × IsFilled cfg.allowed_cidrs
      × IsFilled cfg.db_ssl_mode
  pub domains : All IsFilled cfg.allowed_return_domains
  pub keys :
      (key : String) → (is_known_key key cfg.api_keys ≡ true) ↔ (IsOffered env key × IsFilled key)

is_known_key-IsFilled :
    (key : String) (l : List String) → All IsFilled l → is_known_key key l ≡ true → IsFilled key
unfolding is_known_key
is_known_key-IsFilled key [] filled e = absurd (ground arith)
is_known_key-IsFilled key (k ∷ l) (this, rest) e = elim (Bool-cases (k == key)) [
  | inl same ↦ subst IsFilled ((eq_iff k key).0 same) this
  | inr other ↦ is_known_key-IsFilled key l rest (rw other at e)
]

filled_tested : {s : String} → IsFilled s → (s == "") ≡ false
filled_tested {s = s} h = elim (Bool-cases (s == "")) [
  | inl blank ↦ absurd (h ((eq_iff s "").0 blank))
  | inr set ↦ set
]

allowed_keys_two_way :
    (env : Sources) (key : String)
    → (is_known_key key (allowed_keys env) ≡ true) ↔ (IsOffered env key × IsFilled key)
allowed_keys_two_way env key = (
  λ e. (
    is_known_key-allowed_keys env key e,
    is_known_key-IsFilled key (allowed_keys env) (allowed_keys-IsFilled env) e,
  ),
  λ h. allowed_keys_known env key (filled_tested h.1) h.0,
)

-- The database URL of a configuration, from the variable.
abbrev database_url_of : Sources → String → String
database_url_of env dsn =
    enforce_db_ssl_mode env dsn (env_bool env "ENFORCE_DB_SSL") (env_or env "DB_SSLMODE" "require")
      (trim_space (env.getenv "DB_SSLROOTCERT"))

enforced_or_same :
    (env : Sources) (dsn : String) {set : String}
    → dsn ≡ set
    → (env_bool env "ENFORCE_DB_SSL" ≡ true) ⊎ (database_url_of env dsn ≡ set)
unfolding enforce_db_ssl_mode
enforced_or_same env dsn same = elim (Bool-cases (env_bool env "ENFORCE_DB_SSL")) [
  | inl enforce ↦ inl enforce
  | inr plain ↦ inr (rw plain same)
]

configured-IsWellFormed :
    (env : Sources) (encryption_key state_key : String)
    → (env_or env "DATABASE_URL" "" == "") ≡ false
    → (env_or env "BASE_URL" "" == "") ≡ false
    → key_of env "ENCRYPTION_KEY" ≡ ok encryption_key
    → key_of env "STATE_KEY" ≡ ok state_key
    → IsWellFormed env (configured env encryption_key state_key)
unfolding configured
configured-IsWellFormed env encryption_key state_key database base sealing signing = record {
  encryption_key = key_of-IsKeyOf env "ENCRYPTION_KEY" encryption_key sealing;
  state_key = key_of-IsKeyOf env "STATE_KEY" state_key signing;
  base_url = (env_or_empty env "BASE_URL", tested-IsFilled base);
  database_url = (
    subst IsFilled (env_or_empty env "DATABASE_URL") (tested-IsFilled database),
    ap (λ dsn. database_url_of env dsn) (env_or_empty env "DATABASE_URL"),
    enforced_or_same env (env_or env "DATABASE_URL" "") (env_or_empty env "DATABASE_URL"),
  );
  defaults = (
    env_or-IsFilled env "PORT" "8080" (tested-IsFilled refl),
    env_or-IsFilled env "REDIS_URL" "redis://localhost:6379/0" (tested-IsFilled refl),
    env_or-IsFilled env "REDIRECT_PATH" "/auth/callback" (tested-IsFilled refl),
    env_or-IsFilled env "ALLOWED_CIDRS" "127.0.0.1/32,::1/128" (tested-IsFilled refl),
    env_or-IsFilled env "DB_SSLMODE" "require" (tested-IsFilled refl),
  );
  domains = allowed_domains-IsFilled env;
  keys = allowed_keys_two_way env;
}

-- Load returns a configuration whose keys are the decoded values of variables that are set and 32 bytes
-- long, and whose base URL is the variable of that name, which is set. The variable DATABASE_URL is
-- set; the database URL is its value with the parameters that enforce_db_ssl_mode adds for the SSL
-- settings of the configuration, and its very value unless SSL is enforced. The port, the Redis URL,
-- the redirect path, the address list and the SSL mode are not empty, and no allowed domain is. A key
-- is among the API keys exactly if it is not empty and is, but for blanks around it, an entry of
-- API_KEYS or the value of API_KEY.
pub load-IsWellFormed :
    (env : Sources) (cfg : BrokerConfig) → load env ≡ ok cfg → IsWellFormed env cfg
unfolding load
load-IsWellFormed env cfg e = elim (Bool-cases (env_or env "DATABASE_URL" "" == "")) [
  | inl blank ↦ absurd (ground arith)
  | inr database ↦ elim (Bool-cases (env_or env "BASE_URL" "" == "")) [
    | inl blank ↦ absurd (ground arith)
    | inr base ↦ elim (Result-cases (key_of env "ENCRYPTION_KEY")) [
      | inr (reason, failed) ↦ absurd (ground arith)
      | inl (encryption_key, sealing) ↦ elim (Result-cases (key_of env "STATE_KEY")) [
        | inr (reason, failed) ↦ absurd (ground arith)
        | inl (state_key, signing) ↦
            let same : configured env encryption_key state_key ≡ cfg = ground arith in
            subst (IsWellFormed env) same
              (configured-IsWellFormed env encryption_key state_key database base sealing signing)
      ]
    ]
  ]
]
