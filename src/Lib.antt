-- ===== src/Lib.antt =====
-- Nexus: OAuth and credential handling for agents.
--
-- The program has a broker (nexus-broker), which runs the OAuth flow, stores encrypted credentials
-- and hands them out with a strategy; a bridge (nexus-bridge), a library that agents use to hold
-- authenticated WebSocket and gRPC connections; a gateway (nexus-gateway) in front of the broker, an
-- SDK and a CLI. The development models the bridge, the broker's configuration, routes, consents,
-- credentials and provider profiles, the gateway's handlers, the SDK and the CLI.
--
-- Which file models what:
--   Prelude      names of the libraries, tests, results, texts, maps, and Go's int64
--   Json         what encoding/json decodes into interface{}; numbers are integers
--   Strategy     nexus-bridge/pkg/auth: ApplyAuthentication and its strategies; Strategy.Grpc is
--                GetGRPCMetadata
--   Bridge.Errors, Bridge.Backoff
--                error.go, and growBackoff, applyJitter and calculateBackoff of bridge.go
--   Bridge.Credentials
--                grpc_credentials.go: the cached token, its lock and its metadata
--   Bridge.Rpc   MaintainGRPCConnection, a loop over attempts
--   Bridge.Session, Bridge.Socket
--                manageConnection, a loop over the events of its select, and MaintainWebSocket
--   Broker.State nexus-broker/pkg/auth/state.go and nexus-gateway/pkg/usecase/state.go
--   Broker.Db    the tables and statements of nexus-broker/pkg/handlers
--   Broker.ReturnUrl
--                nexus-broker/pkg/server/returnurl.go
--   Broker.Handler
--                what the handlers share: a handler runs over the database and the counters, and
--                an early return skips the rest; storeTokens, updateConnectionStatus, logAuditEvent
--   Broker.Exchange, Broker.Callback, Broker.Capture, Broker.Token, Broker.Refresh
--                callback.go: the requests to providers, Handle, GetCaptureSchema and
--                SaveCredential, GetToken, Refresh
--   Broker.Pkce, Broker.AuthUrl, Broker.Consent
--                pkce.go of nexus-broker/pkg/auth, and consent.go: buildAuthURL and GetSpec
--   Broker.Profile, Broker.Provider
--                nexus-broker/pkg/provider/store.go; Provider.Handlers is providers.go
--   Broker.Discovery, Broker.Oidc, Broker.Audit, Broker.Keys
--                discovery.go, validator.go, audit.go of the handlers, and keys.go
--   Broker.Access
--                nexus-broker/pkg/server/apikey.go and allowlist.go
--   Broker.Config, Broker.Routes
--                nexus-broker/pkg/config/broker.go, and the routes of cmd/nexus-broker/main.go with
--                the middleware in front of them
--   Broker.Caching, Broker.Respond, Broker.Storage
--                client.go of pkg/caching, response.go of pkg/httputil, and pg.go of pkg/storage;
--                Broker.Db.Cleanup is cleanup.go of the handlers, and Broker.Audit.Log is
--                nexus-broker/internal/audit/service.go
--   Broker.Service
--                a running broker: the requests to callback.go and consent.go, the ticks of the
--                cleanup and the requests under /providers, one after the other
--   Gateway.Connect, Gateway.Proxy
--                nexus-gateway/pkg/usecase/handler.go, on the answers of the generated client
--   Gateway.FromBroker
--                how that client reads the answers of GetSpec and GetToken, which composes the
--                gateway with the broker
--   Gateway.Grpc nexus-gateway/pkg/grpc/server_grpc.go: the four calls and the interceptor
--   Gateway.Setup, Gateway.Routes, Gateway.Logging, Gateway.AuditProviders
--                NewHandler and the proxied requests, server.go and cors.go, logger.go, and nexus-gateway/cmd/audit-providers/main.go
--   Gateway.Start
--                nexus-gateway/cmd/nexus-rest/main.go and cmd/nexus-grpc/main.go
--   Sdk          nexus-sdk/client.go
--   Cli          nexus-cli: Cli.Manifest, Cli.Plan, Cli.Run and Cli.Show are main.go, Cli.Drift is
--                drift.go
--   Examples     the theorems at concrete inputs
--
-- State is explicit. A handler gets and returns the database, any statement of which may fail: the
-- faults are an argument. What the environment does is data too: an attempt, an event or an answer
-- is an element of a list that the loops consume, and a loop whose list is used up is still
-- running. So these loops are structural recursion, without fuel, and a statement for all lists
-- holds for runs of any length. The SDK's do counts the attempts that are left; WaitForActive has
-- fuel, the number of polls.
--
-- Code outside the repository is a parameter: hashes, encryption, JSON, base64, URLs, UUIDs, the
-- clock, randomness and the servers of providers. The laws that a theorem needs of them are its
-- hypotheses (Broker.State.Laws.IsLawful, Broker.Token.RoundTrip.Reads). Discovery and the
-- verification of identity tokens, which have models of their own, are arguments of the callback as
-- well. Times are nanoseconds, a duration is an int64 with its wrap-around.
--
-- Requests are served one at a time: the interleaving of two handlers' statements is not modelled.
-- In Broker.Service a request under /providers stands for whatever table of providers and audit
-- events it leaves; Broker.Provider.Handlers has the handlers themselves, on the whole profiles.
-- What net/http's client does about a redirect is a parameter of Broker.Caching.client_get; the
-- other clients are parameters as a whole. trim_space knows the blanks of ASCII, and to_lower and
-- equal_fold its letters, where Go's functions know those of Unicode. The expiry of a token is not
-- rounded to microseconds, as the database does.
-- The bridge's write pump and pings, the texts of error messages (but not those that the provider
-- handlers look into), logs and histograms are left out, and so are the start of the servers, chi's
-- own middleware, and most of what the CLI prints. The maps that the CLI ranges over are in the
-- order of their first insertion.
pub mod Prelude
pub mod Json
pub mod Strategy
pub mod Bridge
pub mod Broker
pub mod Gateway
pub mod Sdk
pub mod Cli
pub mod Examples
