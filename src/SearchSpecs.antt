-- ===== src/SearchSpecs.antt =====
-- services/searchspec/: what is searched for, read from a payload, checked and kept.
pub mod Models
pub mod Parser
pub mod Service
