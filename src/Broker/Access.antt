-- ===== src/Broker/Access.antt =====
-- nexus-broker/pkg/server/apikey.go and allowlist.go: who may call the protected routes.
pub mod Laws
use nexus_framework.Prelude.{
  ℕ, String, Bool, true, false, not, ◌||◌, Option, none, some, List, [], ◌∷◌, ◌==◌, if◌then◌else◌,
}
use nexus_framework.Prelude.Text.{split, trim_space}
use nexus_framework.Broker.Handler.{Response, error}

-- net: addresses and networks, each as a number. `contains` is given no address for a nil IP.
pub record Net : Type 0 where
  pub parse_ip : String → Option ℕ
  pub parse_cidr : String → Option ℕ
  pub contains : ℕ → Option ℕ → Bool
  pub split_host_port : String → Option String

pub record Caller : Type 0 where
  pub api_key : String
  pub forwarded_for : String
  pub remote_addr : String

unfoldable pub is_known_key : String → List String → Bool
is_known_key key [] = false
is_known_key key (k ∷ l) = k == key || is_known_key key l

-- ApiKeyMiddleware: `none` lets the request pass.
unfoldable pub check_api_key : Bool → List String → Caller → Option Response
check_api_key require allowed caller =
    if not require
    then none
    else (let key = trim_space caller.api_key in
        if key == ""
        then some (error 401 "missing_api_key")
        else if is_known_key key allowed
        then none
        else some (error 403 "invalid_api_key"))

-- The networks of the setting; an entry that is empty or does not parse is skipped.
abbrev pub network_of : Net → String → Option ℕ
network_of net entry =
    let cidr = trim_space entry in if cidr == "" then none else net.parse_cidr cidr

unfoldable pub networks : Net → List String → List ℕ
networks net [] = []
networks net (entry ∷ l) =
    let rest = networks net l in elim (network_of net entry) [ none ↦ rest | some n ↦ n ∷ rest ]

abbrev forwarded_ip : Net → List String → Option ℕ
forwarded_ip net [] = none
forwarded_ip net (entry ∷ l) = net.parse_ip (trim_space entry)

-- getClientIP
unfoldable pub client_ip : Net → Caller → Option ℕ
client_ip net caller =
    let forwarded : Option ℕ =
      if caller.forwarded_for == ""
      then none
      else forwarded_ip net (split b',' caller.forwarded_for) in
    elim forwarded [
      | some ip ↦ some ip
      | none ↦ elim (net.split_host_port caller.remote_addr) [
        | none ↦ net.parse_ip "127.0.0.1"
        | some host ↦ net.parse_ip host
      ]
    ]

unfoldable pub is_contained : Net → List ℕ → Option ℕ → Bool
is_contained net [] ip = false
is_contained net (n ∷ l) ip = net.contains n ip || is_contained net l ip

-- AllowlistMiddleware
unfoldable pub check_allowlist : Net → Bool → String → Caller → Option Response
check_allowlist net require cidrs caller =
    if not require
    then none
    else if is_contained net (networks net (split b',' cidrs)) (client_ip net caller)
    then none
    else some (error 403 "access_denied")
