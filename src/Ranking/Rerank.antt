-- ===== src/Ranking/Rerank.antt =====
-- `_build_rerank_payload` of services/ranking/service.py: what of a listing is sent on.
pub mod Limits
use apartment_finder.Common.Conversion.{answered}
use apartment_finder.Prelude.{
  ℕ, String, Bool, true, false, not, Option, none, some, List, [], ◌∷◌, ltb, keep, map, take,
  or_else, if◌then◌else◌, string_eq,
}
use apartment_finder.Prelude.Dict.{Dict, get, values}
use apartment_finder.Prelude.Order.{Order, sort_by, text_order, pair_order}
use apartment_finder.Common.Json.{Json, text}
use apartment_finder.Common.Text.{is_in}
use apartment_finder.Extraction.Models.{text_length}
use apartment_finder.Retrieval.Models.{Value, json, EvidenceRef}
use apartment_finder.Ranking.Models.{StructuredField, RankingListing, RankingConfig, CommuteValue}
use apartment_finder.Ranking.Values.{Python, resolve_structured_field}

pub record RerankField (F D : Type 0) : Type 0 where
  pub field : String
  pub value : Value D
  pub confidence : F
  pub evidence : List EvidenceRef

pub record RerankListing (F D : Type 0) : Type 0 where
  pub listing_id : String
  pub fields : List (RerankField F D)
  pub commutes : List (CommuteValue F)

module _ {F D : Type 0} ⦃o : Order F⦄ ⦃d : Order D⦄ (py : Python F D)
    (config : RankingConfig F) where
  abbrev pub evidence_key : EvidenceRef → String × String
  evidence_key ev = (ev.evidence_id, or_else ev.fact_id "")

  -- `isinstance(value, str) and len(value) > max_text_length_for_rerank`
  abbrev pub is_long : Value D → Bool
  is_long (json (text t)) = ltb config.max_text_length_for_rerank (text_length t)
  is_long value = false

  abbrev pub rerank_field : String → StructuredField F D → Value D × F → RerankField F D
  rerank_field name field (value, confidence) = record {
    field = name;
    value = value;
    confidence = confidence;
    evidence = take config.max_evidence_per_field (sort_by evidence_key field.evidence);
  }

  abbrev pub unless_long :
      String → StructuredField F D → Value D × F → List (RerankField F D) → List (RerankField F D)
  unless_long name field (value, confidence) rest =
      if is_long value then rest else rerank_field name field (value, confidence) ∷ rest

  abbrev pub next_field :
      String
      → StructuredField F D
      → Option (Value D × F)
      → Option (List (RerankField F D))
      → Option (List (RerankField F D))
  next_field name field none rest = none
  next_field name field (some resolved) none = none
  next_field name field (some resolved) (some rest) = some (unless_long name field resolved rest)

  -- A name that is no key would be a KeyError.
  abbrev pub named_field :
      String
      → Option (StructuredField F D)
      → Option (List (RerankField F D))
      → Option (List (RerankField F D))
  named_field name none rest = none
  named_field name (some field) rest =
      next_field name field (answered (resolve_structured_field py field)) rest

  unfoldable pub rerank_fields :
      Dict String (StructuredField F D) → List String → Option (List (RerankField F D))
  unfolding resolve_structured_field take
  rerank_fields fields [] = some []
  rerank_fields fields (name ∷ names) =
      named_field name (get fields name) (rerank_fields fields names)

  abbrev pub name_key : String → String
  name_key name = name

  unfoldable pub allowed_fields : RankingListing F D → List String
  unfolding keep sort_by is_in take
  allowed_fields listing = take config.max_fields_for_rerank (
      keep (λ name. not (is_in name config.blocked_rerank_fields))
        (sort_by name_key (map (λ kv. kv.0) listing.fields)))

  abbrev pub with_listing :
      RankingListing F D
      → Option (List (RerankField F D))
      → Option (List (RerankListing F D))
      → Option (List (RerankListing F D))
  with_listing listing none rest = none
  with_listing listing (some fields) none = none
  with_listing listing (some fields) (some rest) = some (
      record {
        listing_id = listing.listing_id;
        fields = fields;
        commutes = values listing.commutes;
      }
      ∷ rest)

  unfoldable pub build_rerank_payload :
      List (RankingListing F D) → Option (List (RerankListing F D))
  unfolding rerank_fields allowed_fields
  build_rerank_payload [] = some []
  build_rerank_payload (listing ∷ listings) =
      with_listing listing (rerank_fields listing.fields (allowed_fields listing))
        (build_rerank_payload listings)
