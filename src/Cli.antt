-- ===== src/Cli.antt =====
-- nexus-cli: the manifest, the differences to the live profiles, the plan, and the commands.
pub mod Manifest
pub mod Drift
pub mod Plan
pub mod Run
pub mod Show
