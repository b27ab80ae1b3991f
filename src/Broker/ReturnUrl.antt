-- ===== src/Broker/ReturnUrl.antt =====
-- nexus-broker/pkg/server/returnurl.go: which return URLs a redirect may go to.
pub mod Laws
use Prim.Native.Char.{code}
use nexus_framework.Prelude.{
  String, Bool, true, false, not, ◌&&◌, ◌||◌, Option, none, some, List, [], ◌∷◌, ◌==◌, ◌=?◌,
  if◌then◌else◌,
}
use nexus_framework.Prelude.Text.{◌<>◌, to_lower, trim_space, has_suffix}

-- net/url and net: the host of a URL, `none` where url.Parse fails, and the host part of a
-- host with a port, `none` where net.SplitHostPort fails.
pub record Urls : Type 0 where
  pub host_of : String → Option String
  pub split_host_port : String → Option String

-- What follows the prefix "*.".
unfoldable pub cut_wildcard : String → Option String
cut_wildcard String.[] = none
cut_wildcard (String.◌∷◌ c String.[]) = none
cut_wildcard (String.◌∷◌ c (String.◌∷◌ d s)) =
    if code c =? b'*' && code d =? b'.' then some s else none

abbrev matches_wildcard : String → Option String → Bool
matches_wildcard host none = false
matches_wildcard host (some suf) = has_suffix host ("." <> suf)

unfoldable pub matches_domain : String → String → Bool
matches_domain host a = a == host || matches_wildcard host (cut_wildcard a)

unfoldable pub is_allowed_host : String → List String → Bool
is_allowed_host host [] = false
is_allowed_host host (a ∷ l) = matches_domain host a || is_allowed_host host l

-- The host without its port, in small letters.
unfoldable pub normal_host : Urls → String → String
normal_host urls host =
    let bare : String = elim (urls.split_host_port host) [
      | none ↦ host
      | some h ↦ if h == "" then host else h
    ] in
    to_lower (trim_space bare)

unfoldable pub is_return_url_allowed : Urls → String → Bool → List String → Bool
is_return_url_allowed urls raw enforce domains =
    if not enforce then true else elim (urls.host_of raw) [
      | none ↦ false
      | some host ↦ if host == "" then false else is_allowed_host (normal_host urls host) domains
    ]
