-- ===== src/Tests.antt =====
-- Concrete runs on which the theorems are applied.
pub mod Data
pub mod Gate
pub mod Limits
pub mod Places
pub mod Runs
pub mod Stores
pub mod Clusters
pub mod Extracted
pub mod Ranked
pub mod Searches
