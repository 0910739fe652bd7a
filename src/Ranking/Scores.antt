-- ===== src/Ranking/Scores.antt =====
-- `_score` of services/ranking/service.py. `none` is an exception: the name of the confidence of a
-- price is not bound where the price could not be resolved, and an OverflowError is not caught.
use apartment_finder.Prelude.{
  String, Option, none, some, List, [], ◌∷◌, ◌++◌, length, if◌then◌else◌, string_eq,
}
use apartment_finder.Prelude.Dict.{get}
use apartment_finder.Prelude.Order.{Order}
use apartment_finder.Common.Conversion.{Conversion, converted, unreadable, overflowing, answered}
use apartment_finder.Common.Floats.{is_below, is_same, larger}
use apartment_finder.Retrieval.Models.{Value}
use apartment_finder.Ranking.Models.{StructuredField, RankingListing, CommuteValue, RankedListing}
use apartment_finder.SearchSpecs.Models.{CommuteMax, SearchSpec}
use apartment_finder.Ranking.Values.{Python, resolve_structured_field, float_of}

module _ {F D : Type 0} ⦃o : Order F⦄ ⦃d : Order D⦄ (py : Python F D) where
  -- The utility and the confidences so far.
  abbrev pub Tally : Type 0
  Tally = F × List F

  abbrev literal : String → F
  literal = py.floats.literal

  -- `max(0.0, 1.0 - value / limit)`
  abbrev pub part_left : F → F → F
  part_left value limit =
      larger (literal "0.0") (py.floats.minus (literal "1.0") (py.floats.over value limit))

  abbrev pub add_price : F → Tally → Conversion F → F → Option Tally
  add_price price_max (utility, values) unreadable confidence =
      some (utility, values ++ confidence ∷ [])
  add_price price_max t overflowing confidence = none
  add_price price_max (utility, values) (converted price) confidence =
      some (py.floats.plus utility (part_left price price_max), values ++ confidence ∷ [])

  abbrev pub price_resolved : F → Tally → Option (Value D × F) → Option Tally
  price_resolved price_max t none = none
  price_resolved price_max t (some (value, confidence)) =
      add_price price_max t (float_of py value) confidence

  -- `if price_field and hard.price_max`
  abbrev pub score_price : Option (StructuredField F D) → Option F → Tally → Option Tally
  score_price (some field) (some price_max) t =
      if is_same price_max (literal "0.0")
      then some t
      else price_resolved price_max t (answered (resolve_structured_field py field))
  score_price field price_max t = some t

  abbrev pub add_rooms : F → F → Tally → Conversion F → F → Option Tally
  add_rooms weight least t unreadable confidence = some t
  add_rooms weight least t overflowing confidence = none
  add_rooms weight least (utility, values) (converted rooms) confidence = some (
    py.floats.plus utility (if is_below rooms least then literal "0.0" else weight),
    values ++ confidence ∷ [],
  )

  -- `except (TypeError, ValueError)`
  abbrev pub rooms_resolved : F → F → Tally → Conversion (Value D × F) → Option Tally
  rooms_resolved weight least t unreadable = some t
  rooms_resolved weight least t overflowing = none
  rooms_resolved weight least t (converted (value, confidence)) =
      add_rooms weight least t (float_of py value) confidence

  abbrev pub score_rooms : F → Option (StructuredField F D) → Option F → Tally → Option Tally
  score_rooms weight (some field) (some least) t =
      rooms_resolved weight least t (resolve_structured_field py field)
  score_rooms weight field least t = some t

  abbrev pub add_commute : CommuteMax F → Option (CommuteValue F) → Tally → Tally
  add_commute limit none t = t
  add_commute limit (some commute) (utility, values) = (
    py.floats.plus utility (part_left commute.duration_min (larger limit.max_min (literal "1.0"))),
    values ++ commute.confidence ∷ [],
  )

  unfoldable pub score_commutes : RankingListing F D → List (CommuteMax F) → Tally → Tally
  score_commutes listing [] t = t
  score_commutes listing (limit ∷ limits) t =
      score_commutes listing limits (add_commute limit (get listing.commutes limit.target_label) t)

  unfoldable pub sum_of : F → List F → F
  sum_of total [] = total
  sum_of total (x ∷ xs) = sum_of (py.floats.plus total x) xs

  abbrev pub confidence_of : List F → F
  confidence_of [] = literal "0.5"
  confidence_of (x ∷ xs) =
      py.floats.over (sum_of (py.floats.of_nat 0) (x ∷ xs)) (py.floats.of_nat (length (x ∷ xs)))

  abbrev pub ranked_listing : RankingListing F D → List String → F → F → RankedListing F
  ranked_listing listing flags utility confidence = record {
    listing_id = listing.listing_id;
    rank = 0;
    scores = record {
      utility = py.floats.round4 utility;
      confidence = py.floats.round4 confidence;
      final = py.floats.round4 (py.floats.times utility confidence);
    };
    explanation = record {
      why = "Structured match" ∷ [];
      tradeoffs = "Review commute and price confidence" ∷ [];
      verify = "Verify availability" ∷ [];
      flags = flags;
    };
  }

  abbrev pub score_rest :
      RankingListing F D → SearchSpec F D → List String → Option Tally → Option (RankedListing F)
  score_rest listing search_spec flags none = none
  score_rest listing search_spec flags (some roomed) =
      let total = score_commutes listing search_spec.hard.commute_max roomed in
      some (ranked_listing listing flags total.0 (confidence_of total.1))

  abbrev pub and_then : Option Tally → (Tally → Option Tally) → Option Tally
  and_then none next = none
  and_then (some t) next = next t

  -- The price, the beds and the baths.
  unfoldable pub score_fields : RankingListing F D → SearchSpec F D → Option Tally
  unfolding resolve_structured_field
  score_fields listing search_spec =
      let hard = search_spec.hard in
      let fields = listing.fields in
      and_then
        (and_then (score_price (get fields "price") hard.price_max (literal "0.0", []))
          (λ t. score_rooms (literal "0.5") (get fields "beds") hard.beds_min t))
        (λ t. score_rooms (literal "0.25") (get fields "baths") hard.baths_min t)

  unfoldable pub score :
      RankingListing F D → SearchSpec F D → List String → Option (RankedListing F)
  unfolding score_commutes sum_of score_fields
  score listing search_spec flags =
      score_rest listing search_spec flags (score_fields listing search_spec)
