-- ===== src/Bridge.antt =====
-- nexus-bridge: keeping WebSocket and gRPC connections alive.
pub mod Errors
pub mod Backoff
pub mod Credentials
pub mod Rpc
pub mod Session
pub mod Socket
