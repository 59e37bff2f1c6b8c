-- ===== src/Relay.antt =====
-- crates/core/src/relay.rs: the relay, from the UDP listener through the bounded queue to the sender.
pub mod State
pub mod Listener
pub mod Sender
pub mod Control
pub mod World
pub mod Accounts
pub mod Turns
pub mod Effects
pub mod Order
pub mod Reach
pub mod Calls
pub mod Contract
pub mod Progress
pub mod Liveness
pub mod Guarantees
pub mod Shutdown
pub mod Pause
pub mod Backoff
mod Tests
