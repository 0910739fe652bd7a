-- ===== src/Extraction.antt =====
-- services/common/evidence.py, and the part of services/extraction that turns candidates into facts.
pub mod Models
pub mod Evidence
pub mod Materialize
