-- ===== src/Examples/Access.antt =====
-- nexus-broker/pkg/server/allowlist.go: the allowlist at a concrete input.
use nexus_framework.Prelude.{
  ℕ, ◌≡◌, ◌↔◌, Option, none, some, Bool, true, false, ◌==◌, ◌=?◌, if◌then◌else◌,
}
use nexus_framework.Prelude.Text.{split}
use nexus_framework.Broker.Access.{Net, Caller, client_ip, check_allowlist}
use nexus_framework.Broker.Access.Laws.{Lists, check_allowlist-Lists}

abbrev is_network : ℕ → Option ℕ → Bool
is_network n none = false
is_network n (some ip) = n =? ip

abbrev toy_net : Net
toy_net = record {
  parse_ip = λ s. if s == "10.0.0.1" then some 1 else none;
  parse_cidr = λ s. if s == "10.0.0.1/32" then some 1 else none;
  contains = is_network;
  split_host_port = λ s. none;
}

abbrev toy_caller : Caller
toy_caller = record { api_key = "k"; forwarded_for = "10.0.0.1"; remote_addr = "10.0.0.9:80" }

check_allowlist-Lists_example :
    (check_allowlist toy_net true "10.0.0.1/32" toy_caller ≡ none)
    ↔ Lists toy_net (client_ip toy_net toy_caller) (split b',' "10.0.0.1/32")
check_allowlist-Lists_example = check_allowlist-Lists toy_net "10.0.0.1/32" toy_caller
