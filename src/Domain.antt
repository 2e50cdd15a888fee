-- ===== src/Domain.antt =====
-- packages/timebank-domain/src/index.ts: profiles, listings and exchange proposals.
pub mod Types
pub mod Listings
pub mod Proposals
