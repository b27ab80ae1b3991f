-- ===== src/Gateway/Start.antt =====
-- nexus-gateway/cmd/nexus-rest/main.go and cmd/nexus-grpc/main.go: the settings of the two servers,
-- which read them in the same way but for the ports. The environment and base64 are those of the
-- broker's configuration.
use Prim.Native.String.{len}
use nexus_framework.Prelude.{
  String, ◌≡◌, ◌≢◌, ap, refl, eq_iff, inl, inr, Option, none, some, ◌==◌, ◌=?◌, if◌then◌else◌,
  Result, ok, err, arith, Bool-cases,
}
use nexus_framework.Prelude.Text.{◌<>◌}
use nexus_framework.Broker.Keys.{KeyError, not_set, not_base64, wrong_length}
use nexus_framework.Broker.Config.{Sources, BrokerConfig, env_or, load}
use nexus_framework.Broker.Config.Laws.{load-IsWellFormed, env_or-IsFilled, tested-IsFilled}

-- The end of the program, and the settings of the REST server or of the gRPC server.
pub data StartError : Type 0 where
  no_broker_url : StartError
  bad_state_key : KeyError → StartError

pub record StartSettings : Type 0 where
  pub http_address : String
  pub grpc_address : String
  pub broker_url : String
  pub state_key : String

abbrev decoded_key : Option String → Result StartError String
decoded_key none = err (bad_state_key not_base64)
decoded_key (some key) =
    if len key =? 32 then ok key else err (bad_state_key (wrong_length (len key)))

-- The key of the states.
unfoldable pub start_key : Sources → Result StartError String
start_key env =
    if env_or env "STATE_KEY" "" == ""
    then err (bad_state_key not_set)
    else decoded_key (env.decode (env_or env "STATE_KEY" ""))

abbrev with_key :
    String → String → String → Result StartError String → Result StartError StartSettings
with_key http grpc broker (err e) = err e
with_key http grpc broker (ok key) =
    ok (record { http_address = http; grpc_address = grpc; broker_url = broker; state_key = key })

abbrev started :
    String → String → String → Result StartError String → Result StartError StartSettings
started http grpc broker key =
    if broker == "" then err no_broker_url else with_key http grpc broker key

-- main of nexus-rest, which has no gRPC address
unfoldable pub rest_settings : Sources → Result StartError StartSettings
rest_settings env =
    started (":" <> env_or env "PORT" "8090") ""
      (env_or env "BROKER_BASE_URL" "http://localhost:8080") (start_key env)

-- main of nexus-grpc
unfoldable pub grpc_settings : Sources → Result StartError StartSettings
grpc_settings env =
    started (":" <> env_or env "PORT_HTTP" "8090") (":" <> env_or env "PORT_GRPC" "9090")
      (env_or env "BROKER_BASE_URL" "http://localhost:8080") (start_key env)

start_key_taken :
    (env : Sources) (key : String)
    → len key ≡ 32
    → env.decode (env.getenv "STATE_KEY") ≡ some key
    → env.getenv "STATE_KEY" ≢ ""
    → start_key env ≡ ok key
unfolding start_key env_or
start_key_taken env key long decodes set = elim (Bool-cases (env.getenv "STATE_KEY" == "")) [
  | inl blank ↦ absurd (set ((eq_iff (env.getenv "STATE_KEY") "").0 blank))
  | inr filled ↦ rw filled (rw filled (rw decodes (ground arith)))
]

-- Where the broker loads its configuration, both servers of the gateway take the same bytes as the
-- key of the states from the same variable.
pub start_key-load :
    (env : Sources) (cfg : BrokerConfig) → load env ≡ ok cfg → start_key env ≡ ok cfg.state_key
start_key-load env cfg loaded =
    let key = (load-IsWellFormed env cfg loaded).state_key in
    start_key_taken env cfg.state_key key.0 key.1 key.2

-- So the REST server starts with the broker's key of the states.
pub rest_settings-load :
    (env : Sources) (cfg : BrokerConfig)
    → load env ≡ ok cfg
    → (settings : StartSettings) × (rest_settings env ≡ ok settings)
      × (settings.state_key ≡ cfg.state_key)
unfolding rest_settings
rest_settings-load env cfg loaded =
    let broker = env_or env "BROKER_BASE_URL" "http://localhost:8080" in
    let http = ":" <> env_or env "PORT" "8090" in
    elim (Bool-cases (broker == "")) [
      | inl blank ↦ absurd (
          env_or-IsFilled env "BROKER_BASE_URL" "http://localhost:8080" (tested-IsFilled refl)
            ((eq_iff broker "").0 blank))
      | inr set ↦ (
        record {
          http_address = http;
          grpc_address = "";
          broker_url = broker;
          state_key = cfg.state_key;
        },
        rw set (ap (with_key http "" broker) (start_key-load env cfg loaded)),
        refl,
      )
    ]
