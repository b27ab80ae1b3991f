-- ===== src/Examples/Gateway.antt =====
-- nexus-gateway/pkg/usecase/handler.go: the theorems at concrete inputs.
use nexus_framework.Prelude.{
  ℕ, String, ◌≡◌, refl, true, false, Option, none, some, List, [], ◌∷◌, ◌==◌, if◌then◌else◌, arith,
  Result, ok, err,
}
use nexus_framework.Prelude.Text.{to_lower}
use nexus_framework.Prelude.Int.{pos, ◌+ℤ◌}
use nexus_framework.Broker.Db.{Connection, find_connection}
use nexus_framework.Broker.Handler.{run}
use nexus_framework.Broker.Token.{get_token}
use nexus_framework.Gateway.Answers.{unavailable, replied}
use nexus_framework.Gateway.FromBroker.{token_reply}
use nexus_framework.Gateway.Connect.{
  ConnectInput, ConnectOutput, ProviderRef, BrokerClient, resolve_in_list, request_connection_core,
}
use nexus_framework.Gateway.Connect.EndToEnd.{behind, request_connection_core-get_spec}
use nexus_framework.Gateway.Proxy.{check_connection_core}
use nexus_framework.Gateway.Proxy.Pending.{check_connection_core-get_token}
use nexus_framework.Examples.Toy.{
  toy_codec-IsLawful, toy_outside, toy_config, no_faults, toy_world, waiting, toy_provider,
}
use nexus_framework.Examples.Consent.{
  consent_outside, draws, fresh_world, answer, started_world, started,
}

abbrev two_providers : List ProviderRef
two_providers =
    record { id = some "5"; name = some " ACME " }
    ∷ record { id = some "6"; name = some "other" }
    ∷ []

abbrev no_client : BrokerClient
no_client = record {
  consent_spec = λ q. unavailable;
  provider_by_name = λ name. unavailable;
  providers = replied 200 (some two_providers);
}

abbrev connect_input : ConnectInput
connect_input = record {
  user_id = "w";
  provider_id = "p";
  provider_name = "";
  scopes = some ("email" ∷ []);
  return_url = "https://app.example.com/done";
}

request_connection_core-get_spec_example :
    (o : ConnectOutput) × (c : Connection) × (request_connection_core
        (record {
          codec = consent_outside.codec;
          state_key = toy_config.state_key;
          now = pos 0 +ℤ pos 3;
        })
        (behind toy_config consent_outside draws no_faults fresh_world no_client)
        connect_input
      ≡ ok o)
    × (o.connection_id ≡ "n1")
    × (find_connection 1 started_world.db.connections ≡ some c)
    × (c.status ≡ "pending")
    × (c.workspace_id ≡ "w")
unfolding nexus_framework.Gateway.Connect.provider_id_of nexus_framework.Prelude.Text.trim_space
request_connection_core-get_spec_example =
    request_connection_core-get_spec toy_config consent_outside draws no_faults no_client
      connect_input "p" 3 fresh_world answer started_world toy_codec-IsLawful started refl
      (omega arith) refl

check_connection_core-get_token_example :
    check_connection_core (
      token_reply
        (run (get_token toy_config toy_outside no_faults "/connections/n1/token") toy_world).0)
    ≡ some "failed"
unfolding nexus_framework.Prelude.Text.split nexus_framework.Broker.Db.joined find_connection
    nexus_framework.Broker.Db.find_provider
check_connection_core-get_token_example =
    check_connection_core-get_token toy_config toy_outside no_faults "/connections/n1/token" "n1" 1
      waiting toy_provider toy_world refl refl refl refl refl
