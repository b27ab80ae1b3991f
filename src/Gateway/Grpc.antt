-- ===== src/Gateway/Grpc.antt =====
-- nexus-gateway/pkg/grpc/server_grpc.go: the gRPC service on the cores of the gateway, and the
-- interceptor that gives errors a code.
use nexus_framework.Prelude.{
  ℕ, String, Bool, true, false, Option, none, some, ◌==◌, if◌then◌else◌, Result, ok, err,
}
use nexus_framework.Json.{Value}
use nexus_framework.Gateway.Answers.{BrokerAnswer}
use nexus_framework.Gateway.Connect.{
  ConnectInput, ConnectOutput, ConnectError, invalid_state, provider_not_found, provider_ambiguous,
  broker_unavailable, BrokerClient, Gateway, request_connection_core,
}
use nexus_framework.Gateway.Proxy.{check_connection_core, token_core}

pub data GrpcCode : Type 0 where
  not_found invalid_argument failed_precondition unavailable internal : GrpcCode

-- usecaseErrorInterceptor, on the errors of the usecase
unfoldable pub code_of : ConnectError → GrpcCode
code_of provider_not_found = not_found
code_of invalid_state = invalid_argument
code_of provider_ambiguous = failed_precondition
code_of broker_unavailable = unavailable
code_of _ = internal

abbrev intercepted : {A : Type 0} → Result ConnectError A → Result GrpcCode A
intercepted (ok a) = ok a
intercepted (err e) = err (code_of e)

-- Service.RequestConnection; `none` is a nil request.
unfoldable pub request_connection_rpc :
    Gateway → BrokerClient → Option ConnectInput → Result GrpcCode ConnectOutput
request_connection_rpc gateway broker none = err invalid_argument
request_connection_rpc gateway broker (some input) =
    intercepted (request_connection_core gateway broker input)

-- An error of these cores is none of those that the interceptor knows.
abbrev or_internal : Option String → Result GrpcCode String
or_internal none = err internal
or_internal (some status) = ok status

-- Service.CheckConnection
unfoldable pub check_connection_rpc :
    {A : Type 0} → (String → BrokerAnswer A) → String → Result GrpcCode String
check_connection_rpc tokens id =
    if id == "" then err invalid_argument else or_internal (check_connection_core (tokens id))

-- The token of an answer: a nil map is the empty struct, here `none`. The status is not looked at.
abbrev struct_of : Option Value × ℕ × Bool → Result GrpcCode (Option Value)
struct_of (data_map, status, true) = err internal
struct_of (data_map, status, false) = ok data_map

-- Service.GetToken and Service.RefreshConnection, which differ in the core's call of the broker
unfoldable pub token_rpc : (String → BrokerAnswer Value) → String → Result GrpcCode (Option Value)
token_rpc answers id =
    if id == "" then err invalid_argument else struct_of (token_core (answers id))
