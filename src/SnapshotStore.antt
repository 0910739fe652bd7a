-- ===== src/SnapshotStore.antt =====
-- services/snapshot_store: immutable captures of listing pages.
pub mod Repository
pub mod Service
pub mod Retrieval
