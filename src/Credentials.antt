-- ===== src/Credentials.antt =====
-- Credentials (apps/credentials): envelope encryption under a ring of versioned keys.
pub mod Envelope
pub mod Ring
pub mod Crypto
mod Tests
