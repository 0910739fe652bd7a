-- ===== src/Ranking/Hard/Sound.antt =====
-- What a listing that passes the hard constraints is like.
use apartment_finder.Ranking.Hard.{
  check_move_in, check_available_now, Stop, rejected, raised, numeric_constraint, check_field,
  check_commute, check_commutes, check_present, check_must_have, check_absent, check_exclude,
  check_listing, evaluate_listing, verdict_of, check_neighborhood, is_empty, is_under, is_over,
  admit,
}
use apartment_finder.Prelude.{
  eq_iff, Bool-cases, ◌≡◌, ◌≢◌, refl, ◌⊎◌, inl, inr, String, Bool, true, false, Option, none, some,
  List, [], ◌∷◌, All, arith, string_eq,
}
use apartment_finder.Prelude.Result.{Result-cases, ok, err, bind-ok}
use apartment_finder.Prelude.Dict.{get}
use apartment_finder.Prelude.Order.{Order}
use apartment_finder.Common.Enums.{mode_value}
use apartment_finder.Common.Text.{is_in}
use apartment_finder.Common.Floats.{is_below}
use apartment_finder.Common.Conversion.{converted}
use apartment_finder.Retrieval.Models.{Value}
use apartment_finder.Ranking.Models.{StructuredField, RankingListing, CommuteValue}
use apartment_finder.SearchSpecs.Models.{CommuteMax, SearchSpec, SearchSpecHard}
use apartment_finder.Ranking.Values.{Python, resolve_structured_field, float_of, feature_match}

module _ {F D : Type 0} ⦃o : Order F⦄ ⦃d : Order D⦄ (py : Python F D) (threshold : F) where
  -- A field that is read as a number, with enough confidence, is within the limits.
  abbrev pub IsWithinLimits : Option (StructuredField F D) → Option F → Option F → Type 0
  IsWithinLimits found low high =
      (field : StructuredField F D) (value : Value D) (confidence x : F)
      → found ≡ some field
      → resolve_structured_field py field ≡ converted (value, confidence)
      → float_of py value ≡ converted x
      → o.le? threshold confidence ≡ true
      → (is_under py threshold low x ≡ false) × (is_over py threshold high x ≡ false)

  -- A commute that is known for the mode, with enough confidence, takes no longer than asked.
  abbrev pub IsShort : RankingListing F D → CommuteMax F → Type 0
  IsShort listing limit =
      (commute : CommuteValue F)
      → get listing.commutes limit.target_label ≡ some commute
      → commute.mode ≡ mode_value limit.mode
      → o.le? threshold commute.confidence ≡ true
      → is_below limit.max_min commute.duration_min ≡ false

  -- What is found of the feature, with enough confidence, is not `answer`.
  abbrev pub IsNotFound : Bool → RankingListing F D → String → Type 0
  IsNotFound answer listing feature =
      (confidence : F)
      → feature_match py listing feature ≡ some (some answer, confidence)
      → o.le? threshold confidence ≡ false

  abbrev pub IsAdmissible : RankingListing F D → SearchSpecHard F D → Type 0
  IsAdmissible listing hard =
      ((is_empty hard.neighborhoods_include ≡ true)
        ⊎ (is_in listing.neighborhood hard.neighborhoods_include ≡ true))
      × (is_in listing.neighborhood hard.neighborhoods_exclude ≡ false)
      × IsWithinLimits (get listing.fields "price") hard.price_min hard.price_max
      × IsWithinLimits (get listing.fields "beds") hard.beds_min none
      × IsWithinLimits (get listing.fields "baths") hard.baths_min none
      × All (IsShort listing) hard.commute_max
      × All (IsNotFound false listing) hard.must_have
      × All (IsNotFound true listing) hard.exclude

  check_neighborhood_lem :
      (hard : SearchSpecHard F D) (neighborhood : String) (flags : List String)
      → check_neighborhood py threshold hard neighborhood ≡ ok flags
      → ((is_empty hard.neighborhoods_include ≡ true)
          ⊎ (is_in neighborhood hard.neighborhoods_include ≡ true))
        × (is_in neighborhood hard.neighborhoods_exclude ≡ false)
  check_neighborhood_lem hard neighborhood flags h = (
    elim (Bool-cases (is_empty hard.neighborhoods_include)) [
      | inl e ↦ inl e
      | inr e ↦ inr (ground arith)
    ],
    ground arith,
  )

  numeric_constraint_lem :
      (found : Option (StructuredField F D)) (low high : Option F) (label : String)
      (flags out : List String)
      → admit flags (numeric_constraint py threshold found low high label) ≡ ok out
      → IsWithinLimits found low high
  unfolding numeric_constraint
  numeric_constraint_lem found low high label flags out h field value confidence x is r v c =
      let h2 = rw (is, r, v, c) at h in ground (arith, h2)

  check_field_lem :
      (found : Option (StructuredField F D)) (low high : Option F) (label : String)
      (flags out : List String)
      → check_field py threshold found low high label flags ≡ ok out
      → IsWithinLimits found low high
  check_field_lem found none none label flags out h =
      λ field value confidence x is r v c. (refl, refl)
  check_field_lem found (some low) high label flags out h =
      numeric_constraint_lem found (some low) high label flags out h
  check_field_lem found none (some high) label flags out h =
      numeric_constraint_lem found none (some high) label flags out h

  check_commute_lem :
      (limit : CommuteMax F) (found : Option (CommuteValue F)) (flags out : List String)
      → check_commute py threshold limit found flags ≡ ok out
      → (commute : CommuteValue F) → found ≡ some commute
      → commute.mode ≡ mode_value limit.mode
      → o.le? threshold commute.confidence ≡ true
      → is_below limit.max_min commute.duration_min ≡ false
  check_commute_lem limit none flags out h commute is mode c = absurd (cc)
  check_commute_lem limit (some found) flags out h commute is mode c =
      ground (arith, eq_iff found.mode (mode_value limit.mode))

  check_commutes_lem :
      (listing : RankingListing F D) (limits : List (CommuteMax F)) (flags out : List String)
      → check_commutes py threshold listing limits flags ≡ ok out
      → All (IsShort listing) limits
  unfolding check_commutes
  check_commutes_lem listing [] flags out h = tt
  check_commutes_lem listing (limit ∷ limits) flags out h =
      let (more, first, others) = bind-ok h in
      (
        check_commute_lem limit (get listing.commutes limit.target_label) flags more first,
        check_commutes_lem listing limits more out others,
      )

  check_present_lem :
      (feature : String) (found : Option (Option Bool × F)) (flags out : List String)
      → check_present py threshold feature found flags ≡ ok out
      → (confidence : F) → found ≡ some (some false, confidence)
      → o.le? threshold confidence ≡ false
  check_present_lem feature found flags out h confidence is =
      let h2 = rw is at h in ground (arith, h2)

  check_must_have_lem :
      (listing : RankingListing F D) (features flags out : List String)
      → check_must_have py threshold listing features flags ≡ ok out
      → All (IsNotFound false listing) features
  unfolding check_must_have
  check_must_have_lem listing [] flags out h = tt
  check_must_have_lem listing (feature ∷ features) flags out h =
      let (more, first, others) = bind-ok h in
      (
        check_present_lem feature (feature_match py listing feature) flags more first,
        check_must_have_lem listing features more out others,
      )

  check_absent_lem :
      (feature : String) (found : Option (Option Bool × F)) (flags out : List String)
      → check_absent py threshold feature found flags ≡ ok out
      → (confidence : F) → found ≡ some (some true, confidence)
      → o.le? threshold confidence ≡ false
  check_absent_lem feature found flags out h confidence is =
      let h2 = rw is at h in ground (arith, h2)

  check_exclude_lem :
      (listing : RankingListing F D) (features flags out : List String)
      → check_exclude py threshold listing features flags ≡ ok out
      → All (IsNotFound true listing) features
  unfolding check_exclude
  check_exclude_lem listing [] flags out h = tt
  check_exclude_lem listing (feature ∷ features) flags out h =
      let (more, first, others) = bind-ok h in
      (
        check_absent_lem feature (feature_match py listing feature) flags more first,
        check_exclude_lem listing features more out others,
      )

  verdict_refused :
      (e : Stop) (flags : List String) → verdict_of py threshold (err e) ≢ some (true, flags)
  verdict_refused (rejected why) flags h = ground arith
  verdict_refused raised flags h = ground arith

  check_listing_lem :
      (listing : RankingListing F D) (search_spec : SearchSpec F D) (flags : List String)
      → check_listing py threshold listing search_spec ≡ ok flags
      → IsAdmissible listing search_spec.hard
  unfolding check_listing
  check_listing_lem listing search_spec flags h =
      let (f0, h0, r0) = bind-ok h in
      let (f1, price, r1) = bind-ok r0 in
      let (f2, beds, r2) = bind-ok r1 in
      let (f3, baths, r3) = bind-ok r2 in
      let (f4, commutes, r4) = bind-ok r3 in
      let (f5, now, r5) =
        bind-ok
          {m = check_available_now py threshold listing search_spec search_spec.hard.available_now
            f4}
          r4 in
      let (f6, move, r6) =
        bind-ok
          {m = check_move_in py threshold listing search_spec search_spec.hard.move_in_after f5}
          r5 in
      let (f7, must, features) =
        bind-ok {m = check_must_have py threshold listing search_spec.hard.must_have f6} r6 in
      let (include, exclude) = check_neighborhood_lem search_spec.hard listing.neighborhood f0 h0 in
      (
        include,
        exclude,
        check_field_lem _ _ _ "price" f0 f1 price,
        check_field_lem _ _ _ "beds" f1 f2 beds,
        check_field_lem _ _ _ "baths" f2 f3 baths,
        check_commutes_lem listing _ f3 f4 commutes,
        check_must_have_lem listing _ f6 f7 must,
        check_exclude_lem listing _ f7 flags features,
      )

  -- A listing passes the hard constraints only if it is in a neighborhood that the search includes,
  -- where it names any, and in none that it excludes; each of price, beds and baths that is read as
  -- a number with a confidence of at least the threshold is within its limits, and each such commute
  -- in the wanted mode takes no longer than asked; and what is found with such a confidence neither
  -- denies a feature that is required nor shows one that is excluded.
  pub evaluate_listing-IsAdmissible :
      (listing : RankingListing F D) (search_spec : SearchSpec F D) (flags : List String)
      → evaluate_listing py threshold listing search_spec ≡ some (true, flags)
      → IsAdmissible listing search_spec.hard
  unfolding evaluate_listing
  evaluate_listing-IsAdmissible listing search_spec flags h =
      elim (Result-cases (check_listing py threshold listing search_spec)) [
        | inl (out, run) ↦ check_listing_lem listing search_spec out run
        | inr (e, run) ↦ absurd (verdict_refused e flags (rw run at h))
      ]
