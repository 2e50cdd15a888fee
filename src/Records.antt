-- ===== src/Records.antt =====
-- packages/timebank-records.
pub mod Json
pub mod Envelope
pub mod Signed
pub mod Declarations
pub mod KeyEvents
pub mod KeyLifecycles
pub mod Resolve
pub mod Feeds
pub mod Timebank
