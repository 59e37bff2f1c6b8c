-- ===== src/Dtls.antt =====
-- crates/dtls-openssl/src/lib.rs: the connector and the session over OpenSSL. What OpenSSL answers is
-- an argument, and the calls that change its state are recorded.
pub mod Session
pub mod Lifetime
pub mod Outcomes
pub mod Connect
pub mod Handshake
pub mod Credentials
pub mod Configured
pub mod Fingerprint
mod Tests
