-- ===== src/Web.antt =====
-- crates/cli/src/web.rs: the management interface over HTTP.
pub mod Agent
pub mod Snapshots
pub mod Commands
pub mod Hosts
pub mod Handle
pub mod Authorized
mod Tests
