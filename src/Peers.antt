-- ===== src/Peers.antt =====
-- packages/peer-runtime, and the apps' use of its receipts.
pub mod Receipts
pub mod Manifest
pub mod Roster
pub mod State
pub mod Bootstrap
pub mod Announcements
