-- ===== src/Dedupe.antt =====
-- services/dedupe: the changes of listings, and the canonical values of a cluster.
pub mod Changes
pub mod Bands
pub mod Canonical
pub mod Clusters
pub mod Publish
