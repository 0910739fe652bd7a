-- ===== src/Ranking/Hard/Returns.antt =====
-- Where the fields can be read, the hard constraints raise no exception.
use apartment_finder.Ranking.Hard.{
  date_resolved, Check, rejected, raised, evaluate_listing, verdict_of, check_listing,
  check_neighborhood, check_number, check_field, numeric_constraint, availability_constraint, admit,
  check_commute, check_commutes, check_available_now, check_move_in, check_present, check_must_have,
  check_absent, check_exclude,
}
use apartment_finder.Prelude.{
  ◌≡◌, refl, String, Bool, true, false, Option, none, some, is_none, List, [], ◌∷◌, string_eq, not,
  ◌&&◌, arith, Option-cases, inl, inr,
}
use apartment_finder.Prelude.Dict.{Dict, get}
use apartment_finder.Prelude.Order.{Order, desc_order, pair_order, text_order}
use apartment_finder.Prelude.Result.{ok, err, ◌>>=◌}
use apartment_finder.Common.Json.{null}
use apartment_finder.Common.Conversion.{
  Conversion, converted, unreadable, overflowing, is_overflowing,
}
use apartment_finder.Retrieval.Models.{Value, json}
use apartment_finder.Ranking.Models.{StructuredField, RankingListing, CommuteValue}
use apartment_finder.SearchSpecs.Models.{SearchSpec, SearchSpecHard, CommuteMax}
use apartment_finder.Ranking.Values.{
  Python, resolve_structured_field, float_of, has_feature_items, feature_match, match_keys,
  match_lists,
}

-- No exception.
abbrev pub is_raised : Check → Bool
is_raised (ok flags) = false
is_raised (err (rejected flags)) = false
is_raised (err raised) = true

is_raised-bind :
    (m : Check) (f : List String → Check)
    → is_raised m ≡ false
    → ((flags : List String) → is_raised (f flags) ≡ false)
    → is_raised (m >>= f) ≡ false
is_raised-bind (ok flags) f h k = k flags
is_raised-bind (err (rejected flags)) f h k = refl
is_raised-bind (err raised) f h k = h

module _ {F D : Type 0} ⦃o : Order F⦄ ⦃d : Order D⦄ (py : Python F D) where
  abbrev pub is_usable : Conversion (Value D × F) → Bool
  is_usable (converted (value, confidence)) =
      not (is_overflowing (float_of py value)) && has_feature_items py value
  is_usable unreadable = false
  is_usable overflowing = false

  pub usable_lem :
      (resolved : Conversion (Value D × F))
      → is_usable resolved ≡ true
      → (value : Value D) × (confidence : F) × (resolved ≡ converted (value, confidence))
        × (is_overflowing (float_of py value) ≡ false)
        × (has_feature_items py value ≡ true)
  usable_lem (converted (value, confidence)) h =
      (value, confidence, refl, ground arith, ground arith)
  usable_lem unreadable h = absurd (cc)
  usable_lem overflowing h = absurd (cc)

  -- The field, if it is there, can be resolved, what it resolves to is not a number that a float
  -- cannot hold, and what it lists has texts.
  abbrev pub IsReadable : Option (StructuredField F D) → Type 0
  IsReadable found =
      (field : StructuredField F D)
      → found ≡ some field
      → is_usable (resolve_structured_field py field) ≡ true

  abbrev pub AreReadable : Dict String (StructuredField F D) → Type 0
  AreReadable fields = (name : String) → IsReadable (get fields name)

  match_lists_some :
      (key : String) (fields : Dict String (StructuredField F D)) (keys : List String)
      → AreReadable fields
      → is_none (match_lists py key fields keys) ≡ false
  unfolding match_lists
  match_lists_some key fields [] readable = refl
  match_lists_some key fields (k ∷ keys) readable = elim (Option-cases (get fields k)) [
    | inl missing ↦ rw missing (match_lists_some key fields keys readable)
    | inr (field, found) ↦
        let (value, c, run, fits, named) = usable_lem _ (readable k field found) in
        rw (found, run, named) refl
  ]

  match_keys_some :
      (key : String) (fields : Dict String (StructuredField F D)) (keys : List String)
      → AreReadable fields
      → is_none (match_keys py key fields keys) ≡ false
  unfolding match_keys
  match_keys_some key fields [] readable =
      match_lists_some key fields ("amenities" ∷ "amenity" ∷ "features" ∷ []) readable
  match_keys_some key fields (k ∷ keys) readable = elim (Option-cases (get fields k)) [
    | inl missing ↦ rw missing (match_keys_some key fields keys readable)
    | inr (field, found) ↦
        let (value, c, run, fits, named) = usable_lem _ (readable k field found) in
        rw (found, run) refl
  ]

  feature_match_some :
      (listing : RankingListing F D) (feature : String)
      → AreReadable listing.fields
      → is_none (feature_match py listing feature) ≡ false
  unfolding feature_match
  feature_match_some listing feature readable = match_keys_some _ listing.fields _ readable

  module _ (threshold : F) where
    admit_fine :
        (flags : List String) (answer : Option (Bool × String))
        → is_none answer ≡ false
        → is_raised (admit flags answer) ≡ false
    admit_fine flags none h = h
    admit_fine flags (some (true, flag)) h = refl
    admit_fine flags (some (false, flag)) h = refl

    check_number_some :
        (low high : Option F) (label : String) (confidence : F) (x : Conversion F)
        → is_overflowing x ≡ false
        → is_none (check_number py threshold low high label confidence x) ≡ false
    check_number_some low high label confidence (converted x) h = refl
    check_number_some low high label confidence unreadable h = refl
    check_number_some low high label confidence overflowing h = absurd (cc)

    numeric_constraint_some :
        (found : Option (StructuredField F D)) (low high : Option F) (label : String)
        → IsReadable found
        → is_none (numeric_constraint py threshold found low high label) ≡ false
    unfolding numeric_constraint
    numeric_constraint_some none low high label readable = refl
    numeric_constraint_some (some field) low high label readable =
        let (value, c, run, fits, named) = usable_lem _ (readable field refl) in
        rw run (check_number_some low high label c (float_of py value) fits)

    date_resolved_some :
        (earliest latest : Option D) (label : String) (reference : D)
        (resolved : Option (Value D × F))
        → is_none resolved ≡ false
        → is_none (date_resolved py threshold earliest latest label reference resolved) ≡ false
    date_resolved_some earliest latest label reference none h = h
    date_resolved_some earliest latest label reference (some (json null, c)) h = refl
    date_resolved_some earliest latest label reference (some (_, c)) h = refl

    availability_constraint_some :
        (found : Option (StructuredField F D)) (earliest latest : Option D) (label : String)
        (reference : D)
        → IsReadable found
        → is_none (availability_constraint py threshold found earliest latest label reference)
          ≡ false
    unfolding availability_constraint
    availability_constraint_some none earliest latest label reference readable = refl
    availability_constraint_some (some field) earliest latest label reference readable =
        let (value, c, run, fits, named) = usable_lem _ (readable field refl) in
        date_resolved_some earliest latest label reference _ (rw run refl)

    check_field_fine :
        (found : Option (StructuredField F D)) (low high : Option F) (label : String)
        (flags : List String)
        → IsReadable found
        → is_raised (check_field py threshold found low high label flags) ≡ false
    check_field_fine found none none label flags readable = refl
    check_field_fine found (some low) high label flags readable =
        admit_fine flags _ (numeric_constraint_some found (some low) high label readable)
    check_field_fine found none (some high) label flags readable =
        admit_fine flags _ (numeric_constraint_some found none (some high) label readable)

    check_commute_fine :
        (limit : CommuteMax F) (found : Option (CommuteValue F)) (flags : List String)
        → is_raised (check_commute py threshold limit found flags) ≡ false
    check_commute_fine limit none flags = refl
    check_commute_fine limit (some commute) flags = ground arith

    check_present_fine :
        (feature : String) (found : Option (Option Bool × F)) (flags : List String)
        → is_none found ≡ false
        → is_raised (check_present py threshold feature found flags) ≡ false
    check_present_fine feature none flags h = h
    check_present_fine feature (some (none, c)) flags h = refl
    check_present_fine feature (some (some true, c)) flags h = refl
    check_present_fine feature (some (some false, c)) flags h = ground arith

    check_absent_fine :
        (feature : String) (found : Option (Option Bool × F)) (flags : List String)
        → is_none found ≡ false
        → is_raised (check_absent py threshold feature found flags) ≡ false
    check_absent_fine feature none flags h = h
    check_absent_fine feature (some (none, c)) flags h = refl
    check_absent_fine feature (some (some false, c)) flags h = refl
    check_absent_fine feature (some (some true, c)) flags h = ground arith

    check_commutes_fine :
        (listing : RankingListing F D) (limits : List (CommuteMax F)) (flags : List String)
        → is_raised (check_commutes py threshold listing limits flags) ≡ false
    unfolding check_commutes
    check_commutes_fine listing [] flags = refl
    check_commutes_fine listing (limit ∷ limits) flags =
        is_raised-bind _ _
          (check_commute_fine limit (get listing.commutes limit.target_label) flags)
          (λ more. check_commutes_fine listing limits more)

    check_must_have_fine :
        (listing : RankingListing F D) (features flags : List String)
        → AreReadable listing.fields
        → is_raised (check_must_have py threshold listing features flags) ≡ false
    unfolding check_must_have
    check_must_have_fine listing [] flags readable = refl
    check_must_have_fine listing (feature ∷ features) flags readable =
        is_raised-bind _ _
          (check_present_fine feature (feature_match py listing feature) flags
            (feature_match_some listing feature readable))
          (λ more. check_must_have_fine listing features more readable)

    check_exclude_fine :
        (listing : RankingListing F D) (features flags : List String)
        → AreReadable listing.fields
        → is_raised (check_exclude py threshold listing features flags) ≡ false
    unfolding check_exclude
    check_exclude_fine listing [] flags readable = refl
    check_exclude_fine listing (feature ∷ features) flags readable =
        is_raised-bind _ _
          (check_absent_fine feature (feature_match py listing feature) flags
            (feature_match_some listing feature readable))
          (λ more. check_exclude_fine listing features more readable)

    check_available_now_fine :
        (listing : RankingListing F D) (search_spec : SearchSpec F D) (now : Option Bool)
        (flags : List String)
        → AreReadable listing.fields
        → is_raised (check_available_now py threshold listing search_spec now flags) ≡ false
    check_available_now_fine listing search_spec none flags readable = refl
    check_available_now_fine listing search_spec (some false) flags readable = refl
    check_available_now_fine listing search_spec (some true) flags readable = admit_fine flags _ (
        availability_constraint_some (get listing.fields "availability") none
          (some search_spec.created_on) "available_now" search_spec.created_on
          (readable "availability"))

    check_move_in_fine :
        (listing : RankingListing F D) (search_spec : SearchSpec F D) (after : Option D)
        (flags : List String)
        → AreReadable listing.fields
        → is_raised (check_move_in py threshold listing search_spec after flags) ≡ false
    check_move_in_fine listing search_spec none flags readable = refl
    check_move_in_fine listing search_spec (some x) flags readable = admit_fine flags _ (
        availability_constraint_some (get listing.fields "availability") (some x) none
          "move_in_after" search_spec.created_on (readable "availability"))

    check_neighborhood_fine :
        (hard : SearchSpecHard F D) (neighborhood : String)
        → is_raised (check_neighborhood py threshold hard neighborhood) ≡ false
    check_neighborhood_fine hard neighborhood = ground arith

    check_listing_fine :
        (listing : RankingListing F D) (search_spec : SearchSpec F D)
        → AreReadable listing.fields
        → is_raised (check_listing py threshold listing search_spec) ≡ false
    unfolding check_listing
    check_listing_fine listing search_spec readable =
        let hard = search_spec.hard in
        is_raised-bind _ _ (check_neighborhood_fine hard listing.neighborhood) (λ f0.
          is_raised-bind _ _
            (check_field_fine _ hard.price_min hard.price_max "price" f0 (readable "price"))
            (λ f1.
              is_raised-bind _ _ (check_field_fine _ hard.beds_min none "beds" f1 (readable "beds"))
                (λ f2.
                  is_raised-bind _ _
                    (check_field_fine _ hard.baths_min none "baths" f2 (readable "baths"))
                    (λ f3.
                      is_raised-bind _ _ (check_commutes_fine listing hard.commute_max f3) (λ f4.
                        is_raised-bind _ _
                          (check_available_now_fine listing search_spec hard.available_now f4
                            readable)
                          (λ f5.
                            is_raised-bind _ _
                              (check_move_in_fine listing search_spec hard.move_in_after f5
                                readable)
                              (λ f6.
                                is_raised-bind _ _
                                  (check_must_have_fine listing hard.must_have f6 readable)
                                  (λ f7. check_exclude_fine listing hard.exclude f7 readable))))))))

    verdict_of_some :
        (c : Check) → is_raised c ≡ false → is_none (verdict_of py threshold c) ≡ false
    verdict_of_some (ok flags) h = refl
    verdict_of_some (err (rejected flags)) h = refl
    verdict_of_some (err raised) h = h

    pub evaluate_listing_some :
        (listing : RankingListing F D) (search_spec : SearchSpec F D)
        → AreReadable listing.fields
        → is_none (evaluate_listing py threshold listing search_spec) ≡ false
    unfolding evaluate_listing
    evaluate_listing_some listing search_spec readable =
        verdict_of_some _ (check_listing_fine listing search_spec readable)
