-- ===== src/Broker/Profile.antt =====
-- nexus-broker/pkg/provider/store.go: the profile of a provider, and the validation of
-- RegisterProfile.
use Prim.Native.Char.{code}
use nexus_framework.Prelude.{
  ℕ, String, Bool, true, not, ◌&&◌, ◌||◌, Option, none, some, List, ◌==◌, ◌=?◌, leb, if◌then◌else◌,
}
use nexus_framework.Prelude.Text.{◌<>◌, trim_space}
use nexus_framework.Json.{Value}

-- Profile, without its identifier; params is decoded JSON.
pub record Profile : Type 0 where
  pub name : String
  pub description : String
  pub category : String
  pub auth_type : String
  pub auth_header : String
  pub client_id : Option String
  pub client_secret : Option String
  pub auth_url : Option String
  pub token_url : Option String
  pub issuer : Option String
  pub enable_discovery : Bool
  pub scopes : List String
  pub api_base_url : String
  pub user_info_endpoint : String
  pub params : Option Value

abbrev is_name_char : ℕ → Bool
is_name_char c = leb b'a' c && leb c b'z' || leb b'0' c && leb c b'9' || c =? b'-'

-- ^[a-z0-9-]*$
unfoldable pub has_name_chars : String → Bool
has_name_chars String.[] = true
has_name_chars (String.◌∷◌ c s) = is_name_char (code c) && has_name_chars s

abbrev is_blank : Option String → Bool
is_blank none = true
is_blank (some s) = s == ""

abbrev is_spaces : Option String → Bool
is_spaces none = true
is_spaces (some s) = trim_space s == ""

abbrev static_type : String → Bool
static_type t =
    t == "api_key"
    || t == "basic_auth"
    || t == "header"
    || t == "query_param"
    || t == "hmac_payload"
    || t == "aws_sigv4"

-- The validation of the endpoints of an OAuth 2 provider.
unfoldable pub check_endpoints : Profile → Option String
check_endpoints p =
    if p.enable_discovery
    then (if is_spaces p.issuer
        then some "issuer: required when enable_discovery is true"
        else none)
    else if not (is_blank p.issuer) && is_blank p.auth_url && is_blank p.token_url
    then some "enable_discovery: must be set to true when using issuer without auth_url/token_url"
    else if is_blank p.auth_url
    then some "auth_url: missing required field"
    else if is_blank p.token_url
    then some "token_url: missing required field"
    else none

-- The validation of RegisterProfile: the text of the error, if there is one.
unfoldable pub check_profile : Profile → Option String
check_profile p =
    if p.name == ""
    then some "name: missing required field"
    else if not (has_name_chars p.name)
    then some (
        "name: invalid provider name '" <> p.name
        <> "', must contain only lowercase letters, numbers, and hyphens")
    else if p.auth_type == "oauth2" || p.auth_type == ""
    then (if is_blank p.client_id
        then some "client_id: missing required field"
        else if is_blank p.client_secret
        then some "client_secret: missing required field"
        else check_endpoints p)
    else if static_type p.auth_type
    then none
    else some ("auth_type: unsupported value '" <> p.auth_type <> "'")

-- The profile as it is stored: with discovery there are no URLs.
unfoldable pub stored_profile : Profile → Profile
stored_profile p = if p.enable_discovery then record p { auth_url = none; token_url = none } else p
