-- ===== src/Ranking.antt =====
-- services/ranking/: hard constraints, scores, what is sent on for reranking, and the ranked list.
pub mod Models
pub mod Values
pub mod Hard
pub mod Diversity
pub mod Scores
pub mod Rerank
pub mod Rank
