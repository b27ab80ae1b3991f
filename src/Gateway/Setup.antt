-- ===== src/Gateway/Setup.antt =====
-- nexus-gateway/pkg/usecase/handler.go and pkg/grpc/server_grpc.go: what the gateway is set up with,
-- and the two requests that it passes to the broker through a reverse proxy. url.Parse, the
-- generated client and net/http's reverse proxy are arguments or follow their documentation.
use nexus_framework.Prelude.{
  String, Bool, false, ◌||◌, ◌≡◌, refl, Option, none, some, ◌==◌, if◌then◌else◌, Result, ok, err,
  Option-cases, inl, inr, subst, arith,
}
use nexus_framework.Prelude.Text.{◌<>◌, trim_space, trim_right_char, split}
use nexus_framework.Gateway.Answers.{Answer, plain}
use nexus_framework.Broker.Routes.{callback_route, schema_route, route_of, is_protected}

-- getEnv, on the value of the variable
unfoldable pub get_env : String → String → String
get_env value fallback = if trim_space value == "" then fallback else trim_space value

-- The fields of Handler that do not change; the cache of providers is never read.
pub record GatewaySetup : Type 0 where
  pub broker_base_url : String
  pub state_key : String
  pub broker_api_key : String

-- NewHandler, with the value of BROKER_API_KEY; `none` is its panic, where the client refuses a URL.
unfoldable pub new_handler : (String → Bool) → String → String → String → Option GatewaySetup
new_handler accepts broker_base_url state_key api_key =
    let base = trim_right_char b'/' broker_base_url in
    if accepts base
    then some (record {
      broker_base_url = base;
      state_key = state_key;
      broker_api_key = trim_space (get_env api_key "");
    })
    else none

-- The parts of the broker's URL.
pub record Target : Type 0 where
  pub target_scheme : String
  pub target_host : String
  pub target_query : String

-- The request that a reverse proxy sends.
pub record Proxied : Type 0 where
  pub sent_method : String
  pub sent_scheme : String
  pub sent_host : String
  pub sent_path : String
  pub sent_query : String

-- The director of NewSingleHostReverseProxy joins the queries.
unfoldable pub joined_query : String → String → String
joined_query target given =
    if target == "" || given == "" then target <> given else target <> "&" <> given

-- The path is replaced, so a path of the broker's URL is lost.
abbrev directed : String → String → String → Target → Proxied
directed path method query target = record {
  sent_method = method;
  sent_scheme = target.target_scheme;
  sent_host = target.target_host;
  sent_path = path;
  sent_query = joined_query target.target_query query;
}

abbrev proxied : Option Target → String → String → String → Result Answer Proxied
proxied none path method query = err (plain 500)
proxied (some target) path method query = ok (directed path method query target)

-- CaptureSchema
unfoldable pub capture_schema :
    (String → Option Target) → GatewaySetup → String → String → Result Answer Proxied
capture_schema parse setup method query =
    proxied (parse setup.broker_base_url) "/auth/capture-schema" method query

-- ProxyCallback
unfoldable pub proxied_callback :
    (String → Option Target) → GatewaySetup → String → String → Result Answer Proxied
proxied_callback parse setup method query =
    proxied (parse setup.broker_base_url) "/auth/callback" method query

-- The addresses of NewServer, with their defaults; the handler must be there.
unfoldable pub server_addresses : Bool → String → String → Option (String × String)
server_addresses has_handler grpc_address http_address =
    if has_handler
    then some (
      (if grpc_address == "" then ":9090" else grpc_address),
      (if http_address == "" then ":8090" else http_address),
    )
    else none

-- A proxied GET reaches the broker's handler of callbacks, which is not protected, so it needs no
-- API key.
pub proxied_callback-route_of :
    (parse : String → Option Target) (setup : GatewaySetup) (query : String) (sent : Proxied)
    → proxied_callback parse setup "GET" query ≡ ok sent
    → (route_of sent.sent_method sent.sent_path ≡ some callback_route)
      × (is_protected callback_route ≡ false)
unfolding proxied_callback route_of split is_protected
proxied_callback-route_of parse setup query sent e =
    elim (Option-cases (parse setup.broker_base_url)) [
      | inl bad ↦ absurd (ground arith)
      | inr (target, good) ↦
          let same : directed "/auth/callback" "GET" query target ≡ sent = ground arith in
          (subst (λ r. route_of r.sent_method r.sent_path ≡ some callback_route) same refl, refl)
    ]

-- The same for the schema of a capture.
pub capture_schema-route_of :
    (parse : String → Option Target) (setup : GatewaySetup) (query : String) (sent : Proxied)
    → capture_schema parse setup "GET" query ≡ ok sent
    → (route_of sent.sent_method sent.sent_path ≡ some schema_route)
      × (is_protected schema_route ≡ false)
unfolding capture_schema route_of split is_protected
capture_schema-route_of parse setup query sent e =
    elim (Option-cases (parse setup.broker_base_url)) [
      | inl bad ↦ absurd (ground arith)
      | inr (target, good) ↦
          let same : directed "/auth/capture-schema" "GET" query target ≡ sent = ground arith in
          (subst (λ r. route_of r.sent_method r.sent_path ≡ some schema_route) same refl, refl)
    ]
