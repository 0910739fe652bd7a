-- ===== src/Retrieval.antt =====
-- services/retrieval/: the documents of listings, and what a query finds of them.
pub mod Models
pub mod Repository
pub mod Service
