-- ===== src/Alerts.antt =====
-- services/alerts: alerts about changed listings, and their delivery.
pub mod Models
pub mod Repository
pub mod Dispatch
pub mod Delivery
pub mod Run
