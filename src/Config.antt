-- ===== src/Config.antt =====
-- crates/core/src/config.rs: the configuration, its checks and its names.
pub mod Schema
pub mod Names
pub mod Checks
pub mod Files
pub mod Valid
pub mod HostNames
mod Tests
