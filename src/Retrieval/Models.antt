-- ===== src/Retrieval/Models.antt =====
-- services/retrieval/models.py, over any type `F` of floats and `D` of dates. A value is JSON, or a
-- date, which stands for a `date` and for a `datetime`.
use apartment_finder.Prelude.{String, Option, List}
use apartment_finder.Prelude.Dict.{Dict}
use apartment_finder.Common.Json.{Json}

pub data Value (D : Type 0) : Type 0 where
  json : Json → Value D
  day : D → Value D

-- The same class in services/ranking/models.py.
pub record EvidenceRef : Type 0 where
  pub evidence_id : String
  pub fact_id : Option String

pub record FieldValue (F D : Type 0) : Type 0 where
  pub value : Value D
  pub confidence : F
  pub evidence : List EvidenceRef

pub record CommuteInfo (F : Type 0) : Type 0 where
  pub anchor_id : String
  pub mode : String
  pub duration_min : F
  pub confidence : F

pub record ListingDocument (F D : Type 0) : Type 0 where
  pub listing_id : String
  pub building_id : String
  pub neighborhood : String
  pub source_id : String
  pub title : String
  pub body : String
  pub structured : Dict String (FieldValue F D)
  pub commutes : Dict String (CommuteInfo F)
  pub embedding : Option (List F)

pub record RetrievalQuery (F : Type 0) : Type 0 where
  pub keywords : List String
  pub vector : Option (List F)

pub record RetrievalCandidate (F : Type 0) : Type 0 where
  pub listing_id : String
  pub fts_score : F
  pub vector_score : F
  pub combined_score : F
