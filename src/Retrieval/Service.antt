-- ===== src/Retrieval/Service.antt =====
-- services/retrieval/service.py, without the audit events. An optional score that is given takes the
-- place of the one that the candidate has.
use apartment_finder.Prelude.{
  ℕ, String, Option, none, some, List, [], ◌∷◌, take, map, if◌then◌else◌, string_eq, or_else,
}
use apartment_finder.Prelude.Dict.{Dict, get, put, values}
use apartment_finder.Prelude.Order.{Order, Desc, desc_order, pair_order, text_order, sort_by}
use apartment_finder.Common.Text.{truthy}
use apartment_finder.Common.Floats.{Floats}
use apartment_finder.Retrieval.Models.{RetrievalQuery, RetrievalCandidate}
use apartment_finder.Retrieval.Repository.{Listings, fts_search, vector_search}

pub record RetrievalConfig (F : Type 0) : Type 0 where
  pub title_weight : F
  pub body_weight : F
  pub vector_weight : F

module _ {F : Type 0} ⦃o : Order F⦄ (floats : Floats F) (tokenize : String → List String)
    (config : RetrievalConfig F) where
  abbrev pub Candidates : Type 0
  Candidates = Dict String (RetrievalCandidate F)

  abbrev pub new_candidate : String → RetrievalCandidate F
  new_candidate listing_id = record {
    listing_id = listing_id;
    fts_score = floats.literal "0.0";
    vector_score = floats.literal "0.0";
    combined_score = floats.literal "0.0";
  }

  abbrev pub with_scores :
      String → RetrievalCandidate F → Option F → Option F → RetrievalCandidate F
  with_scores listing_id existing fts_score vector_score = record {
    listing_id = if truthy existing.listing_id then existing.listing_id else listing_id;
    fts_score = or_else fts_score existing.fts_score;
    vector_score = or_else vector_score existing.vector_score;
    combined_score = floats.literal "0.0";
  }

  -- `_merge_candidate`
  unfoldable pub merge_candidate :
      String → Option (RetrievalCandidate F) → Option F → Option F → RetrievalCandidate F
  merge_candidate listing_id existing fts_score vector_score =
      with_scores listing_id (or_else existing (new_candidate listing_id)) fts_score vector_score

  unfoldable pub merge_fts : List (String × F) → Candidates → Candidates
  unfolding merge_candidate
  merge_fts [] candidates = candidates
  merge_fts ((k, score) ∷ results) candidates =
      merge_fts results (put candidates k (merge_candidate k (get candidates k) (some score) none))

  unfoldable pub merge_vector : List (String × F) → Candidates → Candidates
  unfolding merge_candidate
  merge_vector [] candidates = candidates
  merge_vector ((k, score) ∷ results) candidates = merge_vector results (
      put candidates k (
        merge_candidate k (get candidates k) none (some (floats.times score config.vector_weight))))

  -- `_finalize_candidate`
  abbrev pub finalize_candidate : RetrievalCandidate F → RetrievalCandidate F
  finalize_candidate candidate = record candidate {
    combined_score = floats.plus candidate.fts_score candidate.vector_score;
  }

  abbrev pub combined_key : RetrievalCandidate F → Desc F × String
  combined_key candidate = (record { key = candidate.combined_score }, candidate.listing_id)

  module _ {D : Type 0} where
    -- Without keywords, the full text search finds nothing, as if it were not made.
    abbrev pub found_texts : List String → ℕ → Listings F D → Candidates
    found_texts keywords limit listings =
        merge_fts
          (fts_search floats tokenize keywords limit config.title_weight config.body_weight
            listings)
          []

    abbrev pub found_vectors : Option (List F) → ℕ → Listings F D → Candidates → Candidates
    found_vectors none limit listings candidates = candidates
    found_vectors (some vector) limit listings candidates =
        merge_vector (vector_search floats tokenize vector limit listings) candidates

    unfoldable pub retrieve : RetrievalQuery F → ℕ → Listings F D → List (RetrievalCandidate F)
    unfolding merge_fts merge_vector fts_search vector_search sort_by take
    retrieve query limit listings =
        let found = found_texts query.keywords limit listings in
        let candidates = found_vectors query.vector limit listings found in
        take limit (sort_by combined_key (map finalize_candidate (values candidates)))
