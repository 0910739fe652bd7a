-- ===== src/Facts.antt =====
-- services/common/facts.py: facts, and the evidence that stands behind them.
pub mod Store
pub mod Provenance
pub mod Located
