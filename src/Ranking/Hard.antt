-- ===== src/Ranking/Hard.antt =====
-- The hard constraints of services/ranking/service.py. A check goes on with the flags so far, or the
-- listing is refused for a reason, or an exception is raised. That a field's confidence is compared
-- as `confidence or 0.0` changes nothing for a float.
pub mod Sound
pub mod Returns
use apartment_finder.Prelude.{
  String, Bool, true, false, not, Option, none, some, List, [], ◌∷◌, ◌++◌, if◌then◌else◌, string_eq,
  ◌==◌, ◌&&◌,
}
use Prim.Native.String.{◌++◌ as append_text}
use apartment_finder.Prelude.Dict.{get}
use apartment_finder.Prelude.Order.{Order}
use apartment_finder.Prelude.Result.{Result, ok, err, ◌>>=◌}
use apartment_finder.Common.Enums.{mode_value}
use apartment_finder.Common.Json.{null}
use apartment_finder.Common.Text.{truthy, is_in}
use apartment_finder.Common.Floats.{is_below}
use apartment_finder.Common.Conversion.{Conversion, converted, unreadable, overflowing, answered}
use apartment_finder.Retrieval.Models.{Value, json}
use apartment_finder.Ranking.Models.{StructuredField, RankingListing, CommuteValue}
use apartment_finder.SearchSpecs.Models.{CommuteMax, SearchSpec, SearchSpecHard}
use apartment_finder.Ranking.Values.{
  Python, resolve_structured_field, float_of, feature_match, parse_availability_date,
}

pub data Stop : Type 0 where
  rejected : List String → Stop
  raised : Stop

abbrev pub Check : Type 0
Check = Result Stop (List String)

abbrev pub is_empty : List String → Bool
is_empty [] = true
is_empty (x ∷ xs) = false

-- A flag, or none where it is the empty text.
abbrev pub add_flag : List String → String → List String
add_flag flags flag = if truthy flag then flags ++ flag ∷ [] else flags

-- `if not passes: return False, [flag]`, then the flag is kept if there is one.
abbrev pub admit : List String → Option (Bool × String) → Check
admit flags none = err raised
admit flags (some (false, flag)) = err (rejected (flag ∷ []))
admit flags (some (true, flag)) = ok (add_flag flags flag)

module _ {F D : Type 0} ⦃o : Order F⦄ ⦃d : Order D⦄ (py : Python F D) (threshold : F) where
  -- A breach refuses the listing if the value is confident enough.
  abbrev pub breach : F → String → String → Bool × String
  breach confidence label why =
      if o.le? threshold confidence
      then (false, append_text label why)
      else (true, append_text label "_low_confidence")

  -- `limit is not None and value < limit`
  abbrev pub is_under : Option F → F → Bool
  is_under none x = false
  is_under (some limit) x = is_below x limit

  abbrev pub is_over : Option F → F → Bool
  is_over none x = false
  is_over (some limit) x = is_below limit x

  -- `except (TypeError, ValueError)`
  abbrev pub check_number : Option F → Option F → String → F → Conversion F → Option (Bool × String)
  check_number low high label confidence unreadable = some (true, append_text label "_invalid")
  check_number low high label confidence overflowing = none
  check_number low high label confidence (converted x) = some (
      if is_under low x
      then breach confidence label "_below_min"
      else if is_over high x
      then breach confidence label "_above_max"
      else (true, ""))

  abbrev pub number_resolved :
      Option F → Option F → String → Option (Value D × F) → Option (Bool × String)
  number_resolved low high label none = none
  number_resolved low high label (some (value, confidence)) =
      check_number low high label confidence (float_of py value)

  -- `_numeric_constraint`
  unfoldable pub numeric_constraint :
      Option (StructuredField F D) → Option F → Option F → String → Option (Bool × String)
  numeric_constraint none low high label = some (true, append_text label "_missing")
  numeric_constraint (some field) low high label =
      number_resolved low high label (answered (resolve_structured_field py field))

  abbrev pub is_before : Option D → D → Bool
  is_before none x = false
  is_before (some limit) x = not (d.le? limit x)

  abbrev pub is_after : Option D → D → Bool
  is_after none x = false
  is_after (some limit) x = not (d.le? x limit)

  abbrev pub check_date : Option D → Option D → String → F → Option D → Bool × String
  check_date earliest latest label confidence none = (true, append_text label "_invalid")
  check_date earliest latest label confidence (some x) =
      if is_before earliest x
      then breach confidence label "_before_min"
      else if is_after latest x
      then breach confidence label "_after_max"
      else (true, "")

  abbrev pub date_resolved :
      Option D → Option D → String → D → Option (Value D × F) → Option (Bool × String)
  date_resolved earliest latest label reference none = none
  date_resolved earliest latest label reference (some (json null, confidence)) =
      some (true, append_text label "_missing")
  date_resolved earliest latest label reference (some (value, confidence)) =
      some
        (check_date earliest latest label confidence (parse_availability_date py reference value))

  -- `_availability_constraint`
  unfoldable pub availability_constraint :
      Option (StructuredField F D) → Option D → Option D → String → D → Option (Bool × String)
  availability_constraint none earliest latest label reference =
      some (true, append_text label "_missing")
  availability_constraint (some field) earliest latest label reference =
      date_resolved earliest latest label reference (answered (resolve_structured_field py field))

  abbrev pub check_neighborhood : SearchSpecHard F D → String → Check
  check_neighborhood hard neighborhood =
      if not (is_empty hard.neighborhoods_include)
        && not (is_in neighborhood hard.neighborhoods_include)
      then err (rejected ("neighborhood_excluded" ∷ []))
      else if is_in neighborhood hard.neighborhoods_exclude
      then err (rejected ("neighborhood_excluded" ∷ []))
      else ok []

  -- `if low is not None or high is not None`
  abbrev pub check_field :
      Option (StructuredField F D) → Option F → Option F → String → List String → Check
  check_field field none none label flags = ok flags
  check_field field low high label flags = admit flags (numeric_constraint field low high label)

  abbrev pub check_duration : CommuteMax F → CommuteValue F → List String → Check
  check_duration limit commute flags =
      if is_below limit.max_min commute.duration_min
      then (if o.le? threshold commute.confidence
          then err (rejected (append_text "commute_exceeds:" limit.target_label ∷ []))
          else ok (flags ++ append_text "commute_low_confidence:" limit.target_label ∷ []))
      else ok flags

  abbrev pub missing_commute : CommuteMax F → List String → Check
  missing_commute limit flags = ok (flags ++ append_text "commute_missing:" limit.target_label ∷ [])

  abbrev pub check_commute : CommuteMax F → Option (CommuteValue F) → List String → Check
  check_commute limit none flags = missing_commute limit flags
  check_commute limit (some commute) flags =
      if commute.mode == mode_value limit.mode
      then check_duration limit commute flags
      else missing_commute limit flags

  unfoldable pub check_commutes : RankingListing F D → List (CommuteMax F) → List String → Check
  check_commutes listing [] flags = ok flags
  check_commutes listing (limit ∷ limits) flags = do
    more ← check_commute limit (get listing.commutes limit.target_label) flags
    check_commutes listing limits more

  -- `if hard.available_now`
  abbrev pub check_available_now :
      RankingListing F D → SearchSpec F D → Option Bool → List String → Check
  check_available_now listing search_spec (some true) flags = admit flags (
      availability_constraint (get listing.fields "availability") none (some search_spec.created_on)
        "available_now" search_spec.created_on)
  check_available_now listing search_spec now flags = ok flags

  abbrev pub check_move_in : RankingListing F D → SearchSpec F D → Option D → List String → Check
  check_move_in listing search_spec none flags = ok flags
  check_move_in listing search_spec (some day) flags = admit flags (
      availability_constraint (get listing.fields "availability") (some day) none "move_in_after"
        search_spec.created_on)

  abbrev pub check_present : String → Option (Option Bool × F) → List String → Check
  check_present feature none flags = err raised
  check_present feature (some (none, confidence)) flags =
      ok (flags ++ append_text "feature_missing:" feature ∷ [])
  check_present feature (some (some true, confidence)) flags = ok flags
  check_present feature (some (some false, confidence)) flags =
      if o.le? threshold confidence
      then err (rejected (append_text "feature_missing:" feature ∷ []))
      else ok (flags ++ append_text "feature_low_confidence:" feature ∷ [])

  unfoldable pub check_must_have : RankingListing F D → List String → List String → Check
  check_must_have listing [] flags = ok flags
  check_must_have listing (feature ∷ features) flags = do
    more ← check_present feature (feature_match py listing feature) flags
    check_must_have listing features more

  abbrev pub check_absent : String → Option (Option Bool × F) → List String → Check
  check_absent feature none flags = err raised
  check_absent feature (some (none, confidence)) flags = ok flags
  check_absent feature (some (some false, confidence)) flags = ok flags
  check_absent feature (some (some true, confidence)) flags =
      if o.le? threshold confidence
      then err (rejected (append_text "feature_excluded:" feature ∷ []))
      else ok (flags ++ append_text "feature_low_confidence:" feature ∷ [])

  unfoldable pub check_exclude : RankingListing F D → List String → List String → Check
  check_exclude listing [] flags = ok flags
  check_exclude listing (feature ∷ features) flags = do
    more ← check_absent feature (feature_match py listing feature) flags
    check_exclude listing features more

  unfoldable pub check_listing : RankingListing F D → SearchSpec F D → Check
  unfolding check_commutes check_must_have check_exclude numeric_constraint availability_constraint
  check_listing listing search_spec = do
    let hard = search_spec.hard
    f0 ← check_neighborhood hard listing.neighborhood
    f1 ← check_field (get listing.fields "price") hard.price_min hard.price_max "price" f0
    f2 ← check_field (get listing.fields "beds") hard.beds_min none "beds" f1
    f3 ← check_field (get listing.fields "baths") hard.baths_min none "baths" f2
    f4 ← check_commutes listing hard.commute_max f3
    f5 ← check_available_now listing search_spec hard.available_now f4
    f6 ← check_move_in listing search_spec hard.move_in_after f5
    f7 ← check_must_have listing hard.must_have f6
    check_exclude listing hard.exclude f7

  -- What is returned, and `none` where an exception leaves it.
  abbrev pub verdict_of : Check → Option (Bool × List String)
  verdict_of (ok flags) = some (true, flags)
  verdict_of (err (rejected flags)) = some (false, flags)
  verdict_of (err raised) = none

  -- `_evaluate_listing`
  unfoldable pub evaluate_listing :
      RankingListing F D → SearchSpec F D → Option (Bool × List String)
  unfolding check_listing
  evaluate_listing listing search_spec = verdict_of (check_listing listing search_spec)
