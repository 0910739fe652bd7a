-- ===== src/Tests/Ranked.antt =====
-- The theorems on services/ranking at concrete values. A float is a number here.
use apartment_finder.Prelude.{
  Bool-cases, inl, inr, sym, arith, ℕ, ◌+◌, ◌-◌, ◌*◌, ◌≤◌, ◌≡◌, refl, String, true, none, some,
  List, [], ◌∷◌, All, if◌then◌else◌, string_eq, ◌==◌, nat_eq,
}
use apartment_finder.Prelude.Dict.{get, put}
use apartment_finder.Common.Text.{is_in}
use apartment_finder.Prelude.Order.{nat_order, text_leb}
use apartment_finder.Common.Json.{Json, number, bool, text}
use apartment_finder.Common.Floats.{Floats}
use apartment_finder.Common.Conversion.{Conversion, converted, unreadable}
use apartment_finder.Retrieval.Models.{json, FieldValue, ListingDocument}
use apartment_finder.Retrieval.Repository.{Listings}
use apartment_finder.Retrieval.Service.{RetrievalConfig}
use apartment_finder.Ranking.Models.{RankingListing, RankedListing, RankingConfig}
use apartment_finder.SearchSpecs.Models.{SearchSpec}
use apartment_finder.Ranking.Values.{Python, resolve_structured_field, feature_match}
use apartment_finder.Ranking.Hard.{evaluate_listing}
use apartment_finder.Ranking.Hard.Sound.{IsAdmissible, evaluate_listing-IsAdmissible}
use apartment_finder.Ranking.Diversity.{apply_diversity_caps}
use apartment_finder.Ranking.Diversity.Greedy.{
  building, kept_with, greedy, apply_diversity_caps-greedy,
}
use apartment_finder.Ranking.Diversity.Bound.{apply_diversity_caps_bound}
use apartment_finder.Ranking.Rerank.{RerankListing, build_rerank_payload}
use apartment_finder.Ranking.Rerank.Limits.{IsLimitedListing, build_rerank_payload-IsLimitedListing}
use apartment_finder.Ranking.Rank.{RankingResult, structured_field, rank, to_ranking_listing}
use mathlib.Core.Path.{subst}
use apartment_finder.Ranking.Hard.Returns.{AreReadable}
use apartment_finder.Ranking.Rank.Returns.{rank_returns}
use apartment_finder.Ranking.Rank.Results.{IsKeptId, rank-IsKeptId}
use apartment_finder.Ranking.Rank.Sorted.{IsRanked, rank-IsRanked}

abbrev whole : Floats ℕ
whole = record {
  literal = λ t. if t == "0.0" then 0 else 1;
  plus = λ a b. a + b;
  minus = λ a b. a - b;
  times = λ a b. a * b;
  over = λ a b. a;
  square_root = λ a. a;
  of_nat = λ n. n;
  round4 = λ a. a;
}

abbrev read_number : Json → Conversion ℕ
read_number (number t nonzero) = if t == "1900" then converted 1900 else converted 2
read_number j = unreadable

abbrev python : Python ℕ ℕ
python = record {
  floats = whole;
  to_float = read_number;
  is_above_zero = λ j. true;
  str = λ j. "";
  has_text = λ j. true;
  strip = λ t. t;
  lower = λ t. t;
  parse_date = λ t. none;
  set_order = λ keys. keys;
}

abbrev one_word : String → List String
one_word t = t ∷ []

abbrev weights : RetrievalConfig ℕ
weights = record { title_weight = 2; body_weight = 1; vector_weight = 1 }

abbrev config : RankingConfig ℕ
config = record {
  hard_confidence_threshold = 8;
  candidate_limit = 200;
  diversity_caps = record { per_building = 1; per_neighborhood = 5; per_source = 5 };
  max_fields_for_rerank = 1;
  max_evidence_per_field = 1;
  blocked_rerank_fields = "body" ∷ [];
  max_text_length_for_rerank = 200;
}

abbrev sure : Json → FieldValue ℕ ℕ
sure j = record {
  value = json j;
  confidence = 9;
  evidence = record { evidence_id = "e1"; fact_id = none } ∷ [];
}

abbrev flat : String → ListingDocument ℕ ℕ
flat listing_id = record {
  listing_id = listing_id;
  building_id = "b1";
  neighborhood = "Mission";
  source_id = "zillow";
  title = "sunny";
  body = "flat";
  structured =
      ("price", sure (number "1900" true))
      ∷ ("laundry", sure (bool true))
      ∷ ("body", sure (text "flat"))
      ∷ [];
  commutes = [];
  embedding = none;
}

abbrev flats : Listings ℕ ℕ
flats = ("l1", flat "l1") ∷ ("l2", flat "l2") ∷ []

abbrev pub wanted : SearchSpec ℕ ℕ
wanted = record {
  schema_version = "v1";
  search_spec_id = "s1";
  created_on = 1;
  raw_prompt = some "sunny";
  hard = record {
    price_max = some 2000;
    price_min = some 1000;
    beds_min = none;
    baths_min = none;
    neighborhoods_include = "Mission" ∷ [];
    neighborhoods_exclude = [];
    commute_max = [];
    must_have = "laundry" ∷ [];
    exclude = "pool" ∷ [];
    available_now = none;
    move_in_after = none;
  };
  soft = record { weights = []; nice_to_have = []; vibe = [] };
  exploration = record { pct = 0; rules = [] };
}

abbrev found : RankingListing ℕ ℕ
found = to_ranking_listing (flat "l1")

evaluate_listing-IsAdmissible_example : IsAdmissible python 8 found wanted.hard
unfolding evaluate_listing is_in get resolve_structured_field feature_match
evaluate_listing-IsAdmissible_example = evaluate_listing-IsAdmissible python 8 found wanted [] refl

abbrev scored : String → ℕ → RankedListing ℕ
scored listing_id final = record {
  listing_id = listing_id;
  rank = 0;
  scores = record { utility = final; confidence = 1; final = final };
  explanation = record { why = []; tradeoffs = []; verify = []; flags = [] };
}

abbrev both : List (RankedListing ℕ)
both = scored "l1" 7 ∷ scored "l2" 5 ∷ []

apply_diversity_caps-greedy_example :
    apply_diversity_caps flats config.diversity_caps both
    ≡ greedy flats config.diversity_caps [] both
apply_diversity_caps-greedy_example = apply_diversity_caps-greedy flats config.diversity_caps both

apply_diversity_caps_bound_example :
    kept_with flats config.diversity_caps building "b1"
      (apply_diversity_caps flats config.diversity_caps both)
    ≤ 1
apply_diversity_caps_bound_example =
    apply_diversity_caps_bound flats config.diversity_caps both building "b1"

-- Of two names that are not blocked, the first in the order of texts is sent on.
abbrev sent : RerankListing ℕ ℕ
sent = record {
  listing_id = "l1";
  fields =
      record {
        field = "laundry";
        value = json (bool true);
        confidence = 9;
        evidence = record { evidence_id = "e1"; fact_id = none } ∷ [];
      }
      ∷ [];
  commutes = [];
}

build_rerank_payload-IsLimitedListing_example : All (IsLimitedListing python config) (sent ∷ [])
unfolding build_rerank_payload text_leb get
build_rerank_payload-IsLimitedListing_example =
    build_rerank_payload-IsLimitedListing python config (found ∷ []) (sent ∷ []) refl

-- The two flats have one building, of which one may be shown.
abbrev shown : RankedListing ℕ
shown = record {
  listing_id = "l1";
  rank = 1;
  scores = record { utility = 0; confidence = 9; final = 0 };
  explanation = record {
    why = "Structured match" ∷ [];
    tradeoffs = "Review commute and price confidence" ∷ [];
    verify = "Verify availability" ∷ [];
    flags = [];
  };
}

abbrev ranking : RankingResult ℕ ℕ
ranking = record {
  search_spec = wanted;
  results = shown ∷ [];
  rerank_payload = sent ∷ record sent { listing_id = "l2" } ∷ [];
}

rank-IsKeptId_example :
    All
      (λ item. IsKeptId python one_word one_word weights config flats wanted item.listing_id)
      ranking.results
unfolding rank put text_leb get feature_match
rank-IsKeptId_example =
    rank-IsKeptId python one_word one_word weights config flats wanted 10 ranking refl

rank-IsRanked_example : IsRanked python one_word one_word weights config 10 ranking.results
unfolding rank put text_leb get feature_match
rank-IsRanked_example =
    rank-IsRanked python one_word one_word weights config flats wanted 10 ranking refl

abbrev priced : ListingDocument ℕ ℕ
priced = record (flat "l1") { structured = ("price", sure (number "1900" true)) ∷ [] }

abbrev one_flat : Listings ℕ ℕ
one_flat = ("l1", priced) ∷ []

priced-AreReadable : AreReadable python (to_ranking_listing priced).fields
unfolding get resolve_structured_field
priced-AreReadable name field found = elim (Bool-cases ("price" == name)) [
  | inl same ↦
      let is : structured_field (sure (number "1900" true)) ≡ field = ground (arith, same, found) in
      rw (sym is) refl
  | inr other ↦ absurd (ground (arith, other, found))
]

one_flat-AreReadable :
    (k : String) (doc : ListingDocument ℕ ℕ)
    → get one_flat k ≡ some doc
    → AreReadable python (to_ranking_listing doc).fields
unfolding get
one_flat-AreReadable k doc found = elim (Bool-cases ("l1" == k)) [
  | inl same ↦
      let is : priced ≡ doc = ground (arith, same, found) in
      subst (λ x. AreReadable python (to_ranking_listing x).fields) is priced-AreReadable
  | inr other ↦ absurd (ground (arith, other, found))
]

rank_returns_example :
    (result : RankingResult ℕ ℕ) × (rank python one_word one_word weights config one_flat wanted 10
      ≡ some result)
rank_returns_example =
    rank_returns python one_word one_word weights config one_flat wanted 10 one_flat-AreReadable
