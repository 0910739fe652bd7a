-- ===== src/Ranking/Models.antt =====
-- services/ranking/models.py.
use apartment_finder.Prelude.{ℕ, String, List}
use apartment_finder.Prelude.Dict.{Dict}
use apartment_finder.Retrieval.Models.{Value, EvidenceRef}

pub record StructuredField (F D : Type 0) : Type 0 where
  pub value : Value D
  pub confidence : F
  pub evidence : List EvidenceRef

pub record CommuteValue (F : Type 0) : Type 0 where
  pub anchor_id : String
  pub mode : String
  pub duration_min : F
  pub confidence : F

pub record RankingListing (F D : Type 0) : Type 0 where
  pub listing_id : String
  pub building_id : String
  pub neighborhood : String
  pub source_id : String
  pub fields : Dict String (StructuredField F D)
  pub commutes : Dict String (CommuteValue F)

pub record RankingScores (F : Type 0) : Type 0 where
  pub utility : F
  pub confidence : F
  pub final : F

pub record RankingExplanation : Type 0 where
  pub why : List String
  pub tradeoffs : List String
  pub verify : List String
  pub flags : List String

pub record RankedListing (F : Type 0) : Type 0 where
  pub listing_id : String
  pub rank : ℕ
  pub scores : RankingScores F
  pub explanation : RankingExplanation

pub record DiversityCaps : Type 0 where
  pub per_building : ℕ
  pub per_neighborhood : ℕ
  pub per_source : ℕ

pub record RankingConfig (F : Type 0) : Type 0 where
  pub hard_confidence_threshold : F
  pub candidate_limit : ℕ
  pub diversity_caps : DiversityCaps
  pub max_fields_for_rerank : ℕ
  pub max_evidence_per_field : ℕ
  pub blocked_rerank_fields : List String
  pub max_text_length_for_rerank : ℕ
