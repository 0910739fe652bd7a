-- ===== src/SearchSpecs/Parser/Accepted.antt =====
-- A specification that is kept has passed the checks.
use apartment_finder.Prelude.{
  ◌≡◌, refl, String, Bool, true, false, not, ◌&&◌, is_none, List, [], ◌∷◌, ◌++◌, All, arith,
  string_eq,
}
use apartment_finder.Prelude.Order.{Order}
use apartment_finder.Common.Text.{truthy, is_in}
use apartment_finder.Common.Floats.{is_below}
use apartment_finder.SearchSpecs.Models.{CommuteMax, SearchSpecHard}
use apartment_finder.SearchSpecs.Parser.{
  ParserConfig, error_if, is_below_zero, is_inverted, is_given, commute_errors, neighborhood_errors,
  validate_constraints,
}

append-nil_split : {A : Type 0} (xs ys : List A) → (xs ++ ys) ≡ [] → (xs ≡ []) × (ys ≡ [])
append-nil_split [] ys h = (refl, h)
append-nil_split (x ∷ xs) ys h = absurd (ground arith)

error_if_nil :
    (b : Bool) (code message path : String) → error_if b code message path ≡ [] → b ≡ false
error_if_nil true code message path h = absurd (ground arith)
error_if_nil false code message path h = refl

module _ {F D Payload : Type 0} ⦃o : Order F⦄ (config : ParserConfig F D Payload) where
  abbrev pub IsNamed : CommuteMax F → Type 0
  IsNamed entry = (truthy entry.target_label ≡ true) × (is_below entry.max_min config.zero ≡ false)

  abbrev pub IsKnown : String → Type 0
  IsKnown name = (truthy name && not (is_in name config.known_neighborhoods)) ≡ false

  abbrev pub IsConsistent : SearchSpecHard F D → Type 0
  IsConsistent hard =
      (is_below_zero config hard.price_min ≡ false)
      × (is_below_zero config hard.price_max ≡ false)
      × (is_inverted config hard.price_min hard.price_max ≡ false)
      × (is_below_zero config hard.beds_min ≡ false)
      × (is_below_zero config hard.baths_min ≡ false)
      × ((is_given config hard.available_now && not (is_none hard.move_in_after)) ≡ false)
      × All IsNamed hard.commute_max
      × All IsKnown (hard.neighborhoods_include ++ hard.neighborhoods_exclude)

  commute_errors_nil :
      (entries : List (CommuteMax F)) → commute_errors config entries ≡ [] → All IsNamed entries
  unfolding commute_errors
  commute_errors_nil [] h = tt
  commute_errors_nil (entry ∷ entries) h =
      let (both, rest) = append-nil_split _ (commute_errors config entries) h in
      let (named, long) =
        append-nil_split (error_if (not (truthy entry.target_label)) _ _ _) _ both in
      let label = error_if_nil (not (truthy entry.target_label)) _ _ _ named in
      ((ground (arith, label), error_if_nil _ _ _ _ long), commute_errors_nil entries rest)

  neighborhood_errors_nil :
      (names : List String) → neighborhood_errors config names ≡ [] → All IsKnown names
  unfolding neighborhood_errors
  neighborhood_errors_nil [] h = tt
  neighborhood_errors_nil (name ∷ names) h =
      let (known, rest) = append-nil_split _ (neighborhood_errors config names) h in
      (error_if_nil _ _ _ _ known, neighborhood_errors_nil names rest)

  pub validate_constraints-IsConsistent :
      (hard : SearchSpecHard F D) → validate_constraints config hard ≡ [] → IsConsistent hard
  unfolding validate_constraints
  validate_constraints-IsConsistent hard h =
      let (r7, names) =
        append-nil_split _
          (neighborhood_errors config (hard.neighborhoods_include ++ hard.neighborhoods_exclude))
          h in
      let (r6, commutes) = append-nil_split _ (commute_errors config hard.commute_max) r7 in
      let (r5, dates) =
        append-nil_split _
          (error_if (is_given config hard.available_now && not (is_none hard.move_in_after)) _ _ _)
          r6 in
      let (r4, baths) =
        append-nil_split _ (error_if (is_below_zero config hard.baths_min) _ _ _) r5 in
      let (r3, beds) =
        append-nil_split _ (error_if (is_below_zero config hard.beds_min) _ _ _) r4 in
      let (r2, order) =
        append-nil_split _ (error_if (is_inverted config hard.price_min hard.price_max) _ _ _) r3 in
      let (low, high) =
        append-nil_split (error_if (is_below_zero config hard.price_min) _ _ _) _ r2 in
      (
        error_if_nil _ _ _ _ low,
        error_if_nil _ _ _ _ high,
        error_if_nil _ _ _ _ order,
        error_if_nil _ _ _ _ beds,
        error_if_nil _ _ _ _ baths,
        error_if_nil _ _ _ _ dates,
        commute_errors_nil hard.commute_max commutes,
        neighborhood_errors_nil _ names,
      )
