-- ===== src/Examples.antt =====
-- Concrete inputs for the theorems.
mod Agent
mod Reconnect
mod Toy
mod Flow
mod Answer
mod Access
mod Consent
mod Gateway
mod Client
mod Profiles
mod IdToken
mod Manifest
mod Startup
