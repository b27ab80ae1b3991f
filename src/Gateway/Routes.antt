-- ===== src/Gateway/Routes.antt =====
-- nexus-gateway/pkg/server/server.go and pkg/config/cors.go: the routes of the gateway and the
-- origins that it allows. A route is the name of its handler.
use nexus_framework.Prelude.{String, Option, none, some, List, [], ◌∷◌, ◌==◌, if◌then◌else◌, map}
use nexus_framework.Prelude.Text.{split, trim_space}

pub data GatewayRoute : Type 0 where
  health_check prometheus proxy_callback schema_of_capture capture : GatewayRoute
  connect providers_list provider_create : GatewayRoute
  connection_check connection_token connection_refresh : String → GatewayRoute
  provider_get provider_put provider_patch provider_delete : String → GatewayRoute

abbrev for_method : String → String → GatewayRoute → Option GatewayRoute
for_method wanted method route = if method == wanted then some route else none

abbrev provider_by_id : String → String → Option GatewayRoute
provider_by_id method id =
    if method == "GET"
    then some (if id == "metadata" then providers_list else provider_get id)
    else if method == "PUT"
    then some (provider_put id)
    else if method == "PATCH"
    then some (provider_patch id)
    else for_method "DELETE" method (provider_delete id)

abbrev of_area : String → String → Option GatewayRoute
of_area method area =
    if area == "request-connection"
    then for_method "POST" method connect
    else if area == "providers"
    then (if method == "GET" then some providers_list else for_method "POST" method provider_create)
    else if area == "capture-schema"
    then for_method "GET" method schema_of_capture
    else if area == "capture-credential"
    then for_method "POST" method capture
    else none

abbrev of_parameter : String → String → String → Option GatewayRoute
of_parameter method area id =
    if id == ""
    then none
    else if area == "check-connection"
    then for_method "GET" method (connection_check id)
    else if area == "token"
    then for_method "GET" method (connection_token id)
    else if area == "refresh"
    then for_method "POST" method (connection_refresh id)
    else if area == "providers"
    then provider_by_id method id
    else none

abbrev of_segments : String → List String → Option GatewayRoute
of_segments method (root ∷ name ∷ []) =
    if name == "health"
    then for_method "GET" method health_check
    else if name == "metrics"
    then some prometheus
    else none
of_segments method (root ∷ version ∷ area ∷ []) =
    if version == "v1"
    then of_area method area
    else if version == "auth"
    then (if area == "callback" then some proxy_callback else none)
    else none
of_segments method (root ∷ version ∷ area ∷ id ∷ []) =
    if version == "v1" then of_parameter method area id else none
of_segments method _ = none

-- routes, for the method and the path of a request
unfoldable pub gateway_route : String → String → Option GatewayRoute
gateway_route method path = of_segments method (split b'/' path)

-- GetAllowedOrigins, on the value of CORS_ALLOWED_ORIGINS
unfoldable pub get_allowed_origins : String → List String
get_allowed_origins val =
    if val == ""
    then "http://localhost:3000" ∷ "http://localhost:5173" ∷ []
    else map trim_space (split b',' val)
