-- ===== src/Gateway.antt =====
-- nexus-gateway/pkg/usecase: the gateway in front of the broker.
pub mod Answers
pub mod Connect
pub mod FromBroker
pub mod Proxy
pub mod Grpc
pub mod Start
pub mod Logging
pub mod Setup
pub mod Routes
pub mod AuditProviders
