-- ===== src/Oidc.antt =====
-- crates/core/src/oidc.rs: the settings of the login.
pub mod Settings
pub mod Valid
mod Tests
