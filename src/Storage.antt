-- ===== src/Storage.antt =====
-- internal/adapters/storage.
pub mod Columns
pub mod Rows
pub mod Events
pub mod Sorting
pub mod Labs
pub mod Projects
pub mod Outbox
pub mod Samples
