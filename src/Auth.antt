-- ===== src/Auth.antt =====
-- crates/cli/src/auth.rs: the login in front of the web interface.
pub mod Store
pub mod Strings
pub mod Escape
pub mod Groups
pub mod Json
pub mod Redaction
pub mod Finish
pub mod Parameters
pub mod Admission
pub mod Earned
pub mod Order
pub mod Begin
pub mod Endpoints
pub mod Unwraps
pub mod Pieces
pub mod Membership
pub mod State
pub mod Handlers
pub mod Gate
pub mod Guard
pub mod Access
pub mod Once
mod Tests
