-- ===== src/Identity.antt =====
-- packages/timebank-identity.
pub mod Payload
pub mod Events
pub mod Verifier
pub mod Owned
pub mod Lifecycles
pub mod Attesting
