-- ===== src/Broker/Discovery.antt =====
-- nexus-broker/pkg/discovery/discovery.go: the metadata of an OpenID provider. Nothing is cached
-- here; url.Parse and the server are arguments. The counters are left out.
use Prim.Native.Char.{code}
use nexus_framework.Prelude.{
  String, Bool, false, ◌&&◌, ◌||◌, Option, none, some, List, [], ◌∷◌, ◌==◌, ◌=?◌, if◌then◌else◌,
}
use nexus_framework.Prelude.Text.{◌<>◌, trim_space, to_lower, trim_right_char, contains, split}
use nexus_framework.Prelude.Maps.{Assoc}
use nexus_framework.Json.{Value, string_at}
use nexus_framework.Broker.Handler.{HttpAnswer, unreachable, answered}

-- The parts of a URL that the derivation looks at.
pub record UrlParts : Type 0 where
  pub scheme : String
  pub host : String
  pub path : String

pub record OidcMetadata : Type 0 where
  pub issuer : String
  pub authorization_endpoint : String
  pub token_endpoint : String
  pub jwks_uri : String

-- The first group of /([^/]+)/oauth2/v2.0/authorize$ in a path, where `.` in the pattern is any
-- character: the last four parts between slashes, with a part before them.
abbrev is_version : String → Bool
is_version (String.◌∷◌ v (String.◌∷◌ two (String.◌∷◌ dot (String.◌∷◌ zero_char String.[])))) =
    code v =? b'v' && code two =? b'2' && code zero_char =? b'0'
is_version _ = false

abbrev tenant_of : List String → Option String
tenant_of (tenant ∷ oauth ∷ version ∷ last ∷ []) =
    if oauth == "oauth2" && is_version version && last == "authorize"
    then (if tenant == "" then none else some tenant)
    else none
tenant_of _ = none

-- The tenant in the parts of a path; what is before the first slash is no part.
unfoldable pub azure_tenant : List String → Option String
azure_tenant [] = none
azure_tenant (part ∷ parts) =
    let rest = azure_tenant parts in
    elim (tenant_of parts) [ some tenant ↦ some tenant | none ↦ rest ]

-- deriveIssuerFromAuthURL, on the URL once it is parsed
unfoldable pub issuer_of_parts : UrlParts → String
issuer_of_parts u =
    let host = to_lower u.host in
    if contains "accounts.google.com" host
    then "https://accounts.google.com"
    else (elim (azure_tenant (split b'/' u.path)) [
      | some tenant ↦ "https://" <> host <> "/" <> tenant <> "/v2.0"
      | none ↦ u.scheme <> "://" <> u.host
    ])

unfoldable pub derive_issuer : (String → Option UrlParts) → String → String
derive_issuer parse auth_url =
    if trim_space auth_url == "" then "" else (elim (parse (trim_space auth_url)) [
      | none ↦ ""
      | some u ↦ if u.host == "" then "" else issuer_of_parts u
    ])

abbrev metadata_of : Assoc Value → Option OidcMetadata
metadata_of fields =
    if trim_space (string_at "issuer" fields) == ""
      || trim_space (string_at "jwks_uri" fields) == ""
    then none
    else some (record {
      issuer = string_at "issuer" fields;
      authorization_endpoint = string_at "authorization_endpoint" fields;
      token_endpoint = string_at "token_endpoint" fields;
      jwks_uri = string_at "jwks_uri" fields;
    })

abbrev read_metadata : (String → Option (Assoc Value)) → HttpAnswer → Option OidcMetadata
read_metadata of_json unreachable = none
read_metadata of_json (answered status text) =
    if status =? 200
    then (elim (of_json text) [ none ↦ none | some fields ↦ metadata_of fields ])
    else none

-- Discover
unfoldable pub discover :
    (String → Option UrlParts)
    → (String → HttpAnswer)
    → (String → Option (Assoc Value))
    → String
    → String
    → Option OidcMetadata
discover parse fetch of_json given_issuer auth_url =
    let given = trim_space given_issuer in
    let issuer = if given == "" then derive_issuer parse auth_url else given in
    if issuer == ""
    then none
    else read_metadata of_json
        (fetch (trim_right_char b'/' issuer <> "/.well-known/openid-configuration"))
