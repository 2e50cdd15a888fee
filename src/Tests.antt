-- ===== src/Tests.antt =====
-- Runs at concrete inputs, and each property at one that exercises the code.
mod Domain
mod Identity
mod Ledger
mod Settlement
mod Records
mod Feeds
mod Resolve
mod Peers
mod Announcements
