-- ===== src/Settlement.antt =====
-- packages/timebank-settlement.
pub mod Acknowledgements
pub mod Transfers
pub mod Attestations
