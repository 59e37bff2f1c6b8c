-- ===== src/Framing.antt =====
-- crates/core/src/framing.rs: RFC 5424 input validation and RFC 6012 octet-count framing.
pub mod Text
pub mod Frame
pub mod RoundTrip
pub mod Header
pub mod Data
pub mod Message
pub mod Grammar
pub mod Scan
pub mod Elements
pub mod Body
pub mod Priority
pub mod Timestamp
pub mod Language
pub mod Accepts
mod Tests
