-- ===== src/Broker/Routes.antt =====
-- nexus-broker/cmd/nexus-broker/main.go: the routes of the broker, which of them are protected, and
-- the way of a request through the middleware to the handlers of provider profiles.
pub mod Laws
use nexus_framework.Prelude.{
  ℕ, String, Bool, true, false, not, ◌&&◌, Option, none, some, List, [], ◌∷◌, ◌==◌, if◌then◌else◌,
  Result,
}
use nexus_framework.Prelude.Text.{split}
use nexus_framework.Prelude.Maps.{Assoc}
use nexus_framework.Json.{Value}
use nexus_framework.Broker.Handler.{Response}
use nexus_framework.Broker.Config.{BrokerConfig}
use nexus_framework.Broker.Access.{Net, Caller, check_api_key, check_allowlist}
use nexus_framework.Broker.Profile.{Profile}
use nexus_framework.Broker.Provider.Handlers.{
  Reply, Registry, Setting, get_handler, update_handler, patch_handler, delete_handler,
  register_handler, list_handler, get_by_name_handler, delete_by_name_handler, metadata_handler,
}

-- The handler methods that a path has.
pub data ProviderRoute : Type 0 where
  register_route list_route metadata_route : ProviderRoute
  by_name_route delete_by_name_route : String → ProviderRoute
  get_route update_route patch_route delete_route : String → ProviderRoute

pub data Route : Type 0 where
  callback_route metrics_route schema_route capture_route health_route : Route
  audit_route consent_route : Route
  providers_route : ProviderRoute → Route
  token_route refresh_route : String → Route

abbrev on : {A : Type 0} → String → String → A → Option A
on wanted method route = if method == wanted then some route else none

abbrev first_of : {A : Type 0} → Option A → Option A → Option A
first_of none other = other
first_of (some a) other = some a

-- The routes of one provider, by an identifier.
abbrev one_profile : String → String → Option ProviderRoute
one_profile method id = first_of (on "GET" method (get_route id)) (
    first_of (on "PUT" method (update_route id))
      (first_of (on "PATCH" method (patch_route id)) (on "DELETE" method (delete_route id))))

abbrev all_profiles : String → Option ProviderRoute
all_profiles method = first_of (on "POST" method register_route) (on "GET" method list_route)

-- The segments after /providers; a fixed segment goes before the parameter of a method.
unfoldable pub provider_route : String → List String → Option ProviderRoute
provider_route method [] = all_profiles method
provider_route method (segment ∷ []) =
    if segment == ""
    then all_profiles method
    else first_of (if segment == "metadata" then on "GET" method metadata_route else none)
        (one_profile method segment)
provider_route method (segment ∷ name ∷ []) =
    if segment == "by-name" && not (name == "")
    then first_of (on "GET" method (by_name_route name))
        (on "DELETE" method (delete_by_name_route name))
    else none
provider_route method _ = none

abbrev auth_route : String → String → Option Route
auth_route method segment =
    if segment == "callback"
    then on "GET" method callback_route
    else if segment == "capture-schema"
    then on "GET" method schema_route
    else if segment == "capture-credential"
    then on "POST" method capture_route
    else if segment == "consent-spec"
    then on "POST" method consent_route
    else none

abbrev connection_route : String → String → String → Option Route
connection_route method id action =
    if action == "token"
    then on "GET" method (token_route id)
    else if action == "refresh"
    then on "POST" method (refresh_route id)
    else none

abbrev top_route : String → String → Option Route
top_route method segment =
    if segment == "metrics"
    then on "GET" method metrics_route
    else if segment == "audit"
    then on "GET" method audit_route
    else if segment == "health"
    then on "GET" method health_route
    else none

abbrev found_provider : Option ProviderRoute → Option Route
found_provider none = none
found_provider (some r) = some (providers_route r)

abbrev other_route : String → List String → Option Route
other_route method (segment ∷ []) = top_route method segment
other_route method (area ∷ segment ∷ []) =
    if area == "auth" then auth_route method segment else none
other_route method (area ∷ id ∷ action ∷ []) =
    if area == "connections" then connection_route method id action else none
other_route method _ = none

abbrev route_of_segments : String → List String → Option Route
route_of_segments method [] = none
route_of_segments method (area ∷ rest) =
    if area == "providers"
    then found_provider (provider_route method rest)
    else other_route method (area ∷ rest)

abbrev absolute_route : String → List String → Option Route
absolute_route method [] = none
absolute_route method (root ∷ rest) = if root == "" then route_of_segments method rest else none

-- The route of a method and a path.
unfoldable pub route_of : String → String → Option Route
route_of method path = absolute_route method (split b'/' path)

-- The routes that stand behind the middleware.
unfoldable pub is_protected : Route → Bool
is_protected callback_route = false
is_protected metrics_route = false
is_protected schema_route = false
is_protected capture_route = false
is_protected health_route = false
is_protected _ = true

abbrev then_allowlist : Net → BrokerConfig → Caller → Option Response → Option Response
then_allowlist net cfg caller (some refusal) = some refusal
then_allowlist net cfg caller none =
    check_allowlist net cfg.require_allowlist cfg.allowed_cidrs caller

-- What the middleware answers itself: first the API key, then the address.
unfoldable pub refusal_of : Net → BrokerConfig → Caller → Route → Option Response
refusal_of net cfg caller route =
    if is_protected route
    then then_allowlist net cfg caller (check_api_key cfg.require_api_key cfg.api_keys caller)
    else none

-- A request with what its body decodes to, and the identifier that the database would draw.
pub record ProviderRequest : Type 0 where
  pub method : String
  pub path : String
  pub caller : Caller
  pub profile_body : Option Profile
  pub patch_body : Option (Assoc Value)
  pub register_body : Option (Option (Result String Profile))
  pub fresh_id : ℕ

unfoldable pub run_route : Setting → ProviderRoute → ProviderRequest → Registry → Reply × Registry
run_route s register_route r g = register_handler s r.fresh_id r.register_body g
run_route s list_route r g = list_handler s g
run_route s metadata_route r g = metadata_handler s g
run_route s (by_name_route name) r g = get_by_name_handler s name g
run_route s (delete_by_name_route name) r g = delete_by_name_handler s name g
run_route s (get_route id) r g = get_handler s id g
run_route s (update_route id) r g = update_handler s id r.profile_body g
run_route s (patch_route id) r g = patch_handler s id r.patch_body g
run_route s (delete_route id) r g = delete_handler s id g

-- No route (with 404, or 405 where another method has one), a refusal of the middleware, the reply of a profile's handler, or a route of another
-- handler, which does not touch the profiles.
pub data Served : Type 0 where
  not_found : Served
  refusal : Response → Served
  replied : Reply → Served
  elsewhere : Route → Served

abbrev reached : Setting → Route → ProviderRequest → Registry → Served × Registry
reached s (providers_route route) r g =
    let (reply, after) = run_route s route r g in (replied reply, after)
reached s route r g = (elsewhere route, g)

abbrev pub admitted :
    Setting → Option Response → Route → ProviderRequest → Registry → Served × Registry
admitted s (some response) route r g = (refusal response, g)
admitted s none route r g = reached s route r g

abbrev pub routed :
    Net → BrokerConfig → Setting → Option Route → ProviderRequest → Registry → Served × Registry
routed net cfg s none r g = (not_found, g)
routed net cfg s (some route) r g = admitted s (refusal_of net cfg r.caller route) route r g

-- A request to the broker, as far as it concerns the profiles.
unfoldable pub serve_profiles :
    Net → BrokerConfig → Setting → ProviderRequest → Registry → Served × Registry
serve_profiles net cfg s r g = routed net cfg s (route_of r.method r.path) r g
