-- ===== src/Broker/Service.antt =====
-- nexus-broker/pkg/handlers and cmd/nexus-broker/main.go: a running broker, one event after the other.
pub mod Evolves
pub mod Consents
pub mod Keeps
use nexus_framework.Prelude.{ℕ, String, Bool, Option, some, none, List, [], ◌∷◌, ◌++◌}
use nexus_framework.Broker.Db.{Faults, Connection, Provider, AuditEvent}
use nexus_framework.Broker.Db.Cleanup.{tick, orphan_cleanup}
use nexus_framework.Broker.Handler.{Response, World, Config, Outside, Handler, run}
use nexus_framework.Broker.Callback.{CallbackRequest, handle_callback}
use nexus_framework.Broker.Capture.{Submission, get_capture_schema, save_credential}
use nexus_framework.Broker.Consent.{ConsentRequest, Fresh, get_spec}
use nexus_framework.Broker.Token.{get_token}
use nexus_framework.Broker.Refresh.{refresh}

-- A request to one of the handlers of the flow.
pub data Call : Type 0 where
  callback : CallbackRequest → Call
  capture_schema : String → Call
  capture : Option Submission → Call
  consent : Fresh → Option ConsentRequest → Call
  token : String → Call
  refreshing : String → Call

unfoldable pub serve : Config → Outside → Faults → Call → Handler Response
serve config out faults (callback req) = handle_callback config out faults req
serve config out faults (capture_schema state) = get_capture_schema config out faults state
serve config out faults (capture body) = save_credential config out faults body
serve config out faults (consent fresh body) = get_spec config out fresh faults body
serve config out faults (token path) = get_token config out faults path
serve config out faults (refreshing path) = refresh config out faults path

-- What happens to a running broker: a request, with what the outside and the database do while it
-- runs; a tick of the cleanup of tokens, which may fail; or a request to a route under /providers,
-- which may leave any table of providers and add any events to the audit.
pub data Event : Type 0 where
  served : Call → Outside → Faults → Event
  cleaned : Bool → Event
  providers_changed : List Provider → List AuditEvent → Event

unfoldable pub broker_step : Config → Event → World → World
unfolding run
broker_step config (served call out faults) w = (run (serve config out faults call) w).1
broker_step config (cleaned fails) w = record w {
  db = record w.db { tokens = (orphan_cleanup (tick fails ∷ []) w.db.connections w.db.tokens).0 };
}
broker_step config (providers_changed providers events) w = record w {
  db = record w.db { providers = providers; audit_events = w.db.audit_events ++ events };
}

-- The world after some events.
unfoldable pub serve_all : Config → List Event → World → World
serve_all config [] w = w
serve_all config (e ∷ later) w = serve_all config later (broker_step config e w)
