-- ===== src/Ranking/Rank.antt =====
-- `rank` of services/ranking/service.py, without the observability record. `words` is `str.split`
-- with no argument. `none` is an exception.
pub mod Results
pub mod Sorted
pub mod Returns
use apartment_finder.Prelude.{
  ℕ, ◌+◌, String, Bool, true, false, not, Option, none, some, List, [], ◌∷◌, ◌++◌, take, map,
  or_else, if◌then◌else◌, string_eq, keep,
}
use apartment_finder.Prelude.Dict.{Dict, get, put, values}
use apartment_finder.Prelude.Order.{Order, Desc, desc_order, pair_order, text_order, sort_by}
use apartment_finder.Common.Text.{truthy}
use apartment_finder.Retrieval.Models.{
  FieldValue, CommuteInfo, ListingDocument, RetrievalQuery, RetrievalCandidate,
}
use apartment_finder.Retrieval.Repository.{Listings}
use apartment_finder.Retrieval.Service.{RetrievalConfig, retrieve}
use apartment_finder.Ranking.Models.{
  StructuredField, CommuteValue, RankingListing, RankedListing, RankingConfig,
}
use apartment_finder.SearchSpecs.Models.{SearchSpec}
use apartment_finder.Ranking.Values.{Python}
use apartment_finder.Ranking.Hard.{evaluate_listing}
use apartment_finder.Ranking.Scores.{score}
use apartment_finder.Ranking.Rerank.{RerankListing, build_rerank_payload}
use apartment_finder.Ranking.Diversity.{apply_diversity_caps}

pub record RankingResult (F D : Type 0) : Type 0 where
  pub search_spec : SearchSpec F D
  pub results : List (RankedListing F)
  pub rerank_payload : List (RerankListing F D)

abbrev pub commute_value : {F : Type 0} → CommuteInfo F → CommuteValue F
commute_value commute = record {
  anchor_id = commute.anchor_id;
  mode = commute.mode;
  duration_min = commute.duration_min;
  confidence = commute.confidence;
}

module _ {F D : Type 0} where
  abbrev pub structured_field : FieldValue F D → StructuredField F D
  structured_field field = record {
    value = field.value;
    confidence = field.confidence;
    evidence = field.evidence;
  }

  -- `_to_ranking_listing`
  abbrev pub to_ranking_listing : ListingDocument F D → RankingListing F D
  to_ranking_listing doc = record {
    listing_id = doc.listing_id;
    building_id = doc.building_id;
    neighborhood = doc.neighborhood;
    source_id = doc.source_id;
    fields = map (λ kv. (kv.0, structured_field kv.1)) doc.structured;
    commutes = map (λ kv. (kv.0, commute_value kv.1)) doc.commutes;
  }

  abbrev pub hydrated : Option (ListingDocument F D) → List (RankingListing F D)
  hydrated none = []
  hydrated (some doc) = to_ranking_listing doc ∷ []

  unfoldable pub hydrate_listings :
      Listings F D → List (RetrievalCandidate F) → List (RankingListing F D)
  hydrate_listings listings [] = []
  hydrate_listings listings (candidate ∷ candidates) =
      hydrated (get listings candidate.listing_id) ++ hydrate_listings listings candidates

  -- `{listing.listing_id: listing for listing in self._listings.list()}`
  unfoldable pub listing_lookup :
      List (ListingDocument F D)
      → Dict String (ListingDocument F D)
      → Dict String (ListingDocument F D)
  listing_lookup [] lookup = lookup
  listing_lookup (listing ∷ listings) lookup =
      listing_lookup listings (put lookup listing.listing_id listing)

unfoldable pub numbered : {F : Type 0} → ℕ → List (RankedListing F) → List (RankedListing F)
numbered index [] = []
numbered index (result ∷ results) = record result { rank = index } ∷ numbered (index + 1) results

module _ {F D : Type 0} ⦃o : Order F⦄ ⦃d : Order D⦄ (py : Python F D)
    (tokenize words : String → List String) (retrieval : RetrievalConfig F)
    (config : RankingConfig F) where
  abbrev pub raw_text : Option String → String
  raw_text none = ""
  raw_text (some raw) = raw

  -- `_build_query`
  abbrev pub build_query : SearchSpec F D → RetrievalQuery F
  build_query search_spec = record {
    keywords = keep truthy (words (py.lower (raw_text search_spec.raw_prompt)));
    vector = none;
  }

  abbrev pub Filtered : Type 0
  Filtered = List (RankingListing F D) × Dict String (List String)

  abbrev pub flagged : String → List String → Dict String (List String) → Dict String (List String)
  flagged listing_id [] flags = flags
  flagged listing_id (f ∷ fs) flags = put flags listing_id (f ∷ fs)

  abbrev pub filter_one :
      RankingListing F D → Option (Bool × List String) → Filtered → Option Filtered
  filter_one listing none (kept, flags) = none
  filter_one listing (some (passes, listing_flags)) (kept, flags) = some (
    if passes then kept ++ listing ∷ [] else kept,
    flagged listing.listing_id listing_flags flags,
  )

  unfoldable pub apply_hard_filters :
      SearchSpec F D → List (RankingListing F D) → Option Filtered → Option Filtered
  unfolding evaluate_listing
  apply_hard_filters search_spec listings none = none
  apply_hard_filters search_spec [] (some filtered) = some filtered
  apply_hard_filters search_spec (listing ∷ listings) (some filtered) =
      apply_hard_filters search_spec listings (
        filter_one listing
          (evaluate_listing py config.hard_confidence_threshold listing search_spec) filtered)

  abbrev pub with_score :
      Option (RankedListing F) → Option (List (RankedListing F)) → Option (List (RankedListing F))
  with_score none rest = none
  with_score (some item) none = none
  with_score (some item) (some rest) = some (item ∷ rest)

  unfoldable pub score_all :
      SearchSpec F D
      → Dict String (List String)
      → List (RankingListing F D)
      → Option (List (RankedListing F))
  unfolding score
  score_all search_spec flags [] = some []
  score_all search_spec flags (listing ∷ listings) =
      with_score (score py listing search_spec (or_else (get flags listing.listing_id) []))
        (score_all search_spec flags listings)

  -- `(-item.scores.final, item.listing_id)`
  abbrev pub final_key : RankedListing F → Desc F × String
  final_key item = (record { key = item.scores.final }, item.listing_id)

  abbrev pub ranked : Listings F D → ℕ → List (RankedListing F) → List (RankedListing F)
  ranked listings limit scored = numbered 1 (
      take limit (
        apply_diversity_caps (listing_lookup (values listings) []) config.diversity_caps
          (sort_by final_key scored)))

  abbrev pub ranking_of :
      Listings F D
      → SearchSpec F D
      → ℕ
      → Option (List (RankedListing F))
      → Option (List (RerankListing F D))
      → Option (RankingResult F D)
  ranking_of listings search_spec limit none payload = none
  ranking_of listings search_spec limit (some scored) none = none
  ranking_of listings search_spec limit (some scored) (some payload) = some (record {
    search_spec = search_spec;
    results = ranked listings limit scored;
    rerank_payload = payload;
  })

  abbrev pub rank_filtered :
      Listings F D → SearchSpec F D → ℕ → Option Filtered → Option (RankingResult F D)
  rank_filtered listings search_spec limit none = none
  rank_filtered listings search_spec limit (some (filtered, flags)) =
      ranking_of listings search_spec limit (score_all search_spec flags filtered)
        (build_rerank_payload py config filtered)

  unfoldable pub rank : Listings F D → SearchSpec F D → ℕ → Option (RankingResult F D)
  unfolding retrieve hydrate_listings apply_hard_filters score_all listing_lookup numbered
      apply_diversity_caps build_rerank_payload sort_by take keep
  rank listings search_spec limit =
      let candidates =
        retrieve py.floats tokenize retrieval (build_query search_spec) config.candidate_limit
          listings in
      rank_filtered listings search_spec limit
        (apply_hard_filters search_spec (hydrate_listings listings candidates) (some ([], [])))
