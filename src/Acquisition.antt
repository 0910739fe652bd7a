-- ===== src/Acquisition.antt =====
-- services/acquisition: tasks from submission to execution.
pub mod RateLimiter
pub mod Models
pub mod Queue
pub mod Repository
pub mod System
pub mod Validation
pub mod Policy
pub mod Scheduler
pub mod Worker
pub mod Firecrawl
