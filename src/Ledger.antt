-- ===== src/Ledger.antt =====
-- packages/timebank-ledger/src/index.ts
pub mod Types
pub mod Transfers
pub mod Balances
pub mod Settling
pub mod Apply
