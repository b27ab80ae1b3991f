-- ===== src/Broker.antt =====
-- nexus-broker: the OAuth broker.
pub mod Pkce
pub mod Audit
pub mod Keys
pub mod Config
pub mod Routes
pub mod Caching
pub mod Respond
pub mod Storage
pub mod Discovery
pub mod Oidc
pub mod AuthUrl
pub mod Consent
pub mod Profile
pub mod Provider
pub mod State
pub mod Db
pub mod ReturnUrl
pub mod Handler
pub mod Exchange
pub mod Callback
pub mod Capture
pub mod Token
pub mod Refresh
pub mod Service
pub mod Access
