-- ===== src/PolicyGate.antt =====
-- services/policy_gate: which tasks a source's policy permits.
pub mod Matrix
pub mod Repository
pub mod Service
pub mod Tasks
pub mod Safety
