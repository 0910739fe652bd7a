-- ===== src/Ranking/Values.antt =====
-- The values of fields, as services/ranking/service.py reads them. The operations of Python on texts
-- and numbers that this needs are a record of functions; `set_order` is the order in which a set of
-- texts is gone through, which Python leaves open. `none` in place of an answer is an exception.
use apartment_finder.Prelude.{
  String, Bool, true, false, Option, none, some, List, [], ◌∷◌, ◌++◌, map, if◌then◌else◌, string_eq,
  keep, is_none, or_else, ◌&&◌, ◌||◌,
}
use apartment_finder.Prelude.Dict.{Dict, get}
use apartment_finder.Prelude.Order.{Order, Desc, desc_order, pair_order, text_order, sort_by}
use apartment_finder.Common.Json.{
  Json, null, bool, number, text, arr, obj, nil, cons, Items, Fields, get_field, is_truthy,
}
use apartment_finder.Common.Floats.{Floats}
use apartment_finder.Common.Conversion.{Conversion, converted, unreadable, overflowing, answered}
use apartment_finder.Common.Text.{truthy, is_in, replace, split}
use apartment_finder.Retrieval.Models.{Value, json, day}
use apartment_finder.Ranking.Models.{StructuredField, RankingListing}

pub record Python (F D : Type 0) : Type 0 where
  pub floats : Floats F
  pub to_float : Json → Conversion F
  -- `x > 0`, of a number.
  pub is_above_zero : Json → Bool
  pub str : Json → String
  -- Whether `str(x)` returns: an int of too many digits is a ValueError.
  pub has_text : Json → Bool
  pub strip : String → String
  pub lower : String → String
  -- `datetime.fromisoformat(t).date()`, and `none` for a ValueError.
  pub parse_date : String → Option D
  pub set_order : List String → List String

module _ {F D : Type 0} ⦃o : Order F⦄ ⦃d : Order D⦄ (py : Python F D) where
  abbrev pub float_zero : F
  float_zero = py.floats.literal "0.0"

  -- `float(item_conf or 0.0)`
  abbrev pub given_confidence : F → Option Json → Conversion F
  given_confidence confidence none = converted confidence
  given_confidence confidence (some j) = if is_truthy j then py.to_float j else converted float_zero

  abbrev pub valued : Json → Conversion F → Conversion (Json × F)
  valued v unreadable = unreadable
  valued v overflowing = overflowing
  valued v (converted confidence) = converted (v, confidence)

  -- `except (TypeError, ValueError)`
  abbrev pub pair_confidence : F → Conversion F → Conversion F
  pair_confidence confidence unreadable = converted confidence
  pair_confidence confidence overflowing = overflowing
  pair_confidence confidence (converted c) = converted c

  abbrev pub dict_candidate : F → Fields → Option Json → Conversion (Json × F)
  dict_candidate confidence fs none = converted (obj fs, confidence)
  dict_candidate confidence fs (some v) =
      valued v (given_confidence confidence (get_field fs "confidence"))

  abbrev pub item_candidate : F → Json → Conversion (Json × F)
  item_candidate confidence (obj fs) = dict_candidate confidence fs (get_field fs "value")
  item_candidate confidence (arr (cons v (cons c nil))) =
      valued v (pair_confidence confidence (py.to_float c))
  item_candidate confidence item = converted (item, confidence)

  abbrev pub with_candidate :
      Conversion (Json × F) → Conversion (List (Json × F)) → Conversion (List (Json × F))
  with_candidate unreadable rest = unreadable
  with_candidate overflowing rest = overflowing
  with_candidate (converted c) unreadable = unreadable
  with_candidate (converted c) overflowing = overflowing
  with_candidate (converted c) (converted rest) = converted (c ∷ rest)

  unfoldable pub candidates : F → Items → Conversion (List (Json × F))
  candidates confidence nil = converted []
  candidates confidence (cons item items) =
      with_candidate (item_candidate confidence item) (candidates confidence items)

  abbrev pub candidate_key : Json × F → Desc F × String
  candidate_key c = (record { key = c.1 }, py.str c.0)

  abbrev pub first_of : Value D × F → List (Json × F) → Value D × F
  first_of other [] = other
  first_of other (c ∷ cs) = (json c.0, c.1)

  -- The keys of the sort are made.
  unfoldable pub have_texts : List (Json × F) → Bool
  have_texts [] = true
  have_texts (c ∷ cs) = py.has_text c.0 && have_texts cs

  abbrev pub best_of : Value D × F → Conversion (List (Json × F)) → Conversion (Value D × F)
  best_of other unreadable = unreadable
  best_of other overflowing = overflowing
  best_of other (converted cs) =
      if have_texts cs then converted (first_of other (sort_by candidate_key cs)) else unreadable

  abbrev pub resolve_value : Value D → F → Conversion (Value D × F)
  resolve_value (json (arr (cons item items))) confidence =
      best_of (json (arr (cons item items)), confidence) (candidates confidence (cons item items))
  resolve_value value confidence = converted (value, confidence)

  -- `_resolve_structured_field` of a field that is there.
  unfoldable pub resolve_structured_field : StructuredField F D → Conversion (Value D × F)
  unfolding candidates have_texts sort_by
  resolve_structured_field field = resolve_value field.value field.confidence

  abbrev pub float_of : Value D → Conversion F
  float_of (json j) = py.to_float j
  float_of (day x) = unreadable

  abbrev pub yes_or_no : String → Option Bool
  yes_or_no t =
      if is_in t ("yes" ∷ "true" ∷ "1" ∷ "y" ∷ "available" ∷ "included" ∷ "present" ∷ [])
      then some true
      else if is_in t ("no" ∷ "false" ∷ "0" ∷ "n" ∷ "not available" ∷ "unavailable" ∷ "absent" ∷ [])
      then some false
      else none

  -- `_truthy`
  unfoldable pub truthy_value : Value D → Option Bool
  unfolding is_in
  truthy_value (json (bool b)) = some b
  truthy_value (json (number t nonzero)) = some (py.is_above_zero (number t nonzero))
  truthy_value (json (text t)) = yes_or_no (py.lower (py.strip t))
  truthy_value value = none

  -- `.strip().lower().replace(" ", "_")`
  abbrev pub feature_name : String → String
  feature_name t = replace 32 "_" (py.lower (py.strip t))

  abbrev pub dict_name : Option Json → List String
  dict_name none = []
  dict_name (some v) = feature_name (py.str v) ∷ []

  abbrev pub item_name : Json → List String
  item_name (text t) = feature_name t ∷ []
  item_name (obj fs) = dict_name (get_field fs "value")
  item_name item = []

  unfoldable pub item_names : Items → List String
  unfolding replace
  item_names nil = []
  item_names (cons item items) = item_name item ++ item_names items

  abbrev pub feature_items : Value D → List String
  feature_items (json (text t)) =
      map feature_name (keep (λ part. truthy (py.strip part)) (split 44 t))
  feature_items (json (arr items)) = item_names items
  feature_items value = []

  -- Whether what is listed can be given as texts.
  abbrev pub has_name : Json → Bool
  has_name (obj fs) =
      is_none (get_field fs "value") || py.has_text (or_else (get_field fs "value") null)
  has_name item = true

  unfoldable pub have_names : Items → Bool
  have_names nil = true
  have_names (cons item items) = has_name item && have_names items

  abbrev pub has_feature_items : Value D → Bool
  has_feature_items (json (arr items)) = have_names items
  has_feature_items value = true

  -- What is found of a feature: whether it is there, if that can be told, and the confidence. The
  -- confidence `None`, where no field is found, is zero here: it is not read then.
  abbrev pub FeatureMatch : Type 0
  FeatureMatch = Option Bool × F

  abbrev pub by_value : Option (Value D × F) → Option FeatureMatch
  by_value none = none
  by_value (some (value, confidence)) = some (truthy_value value, confidence)

  abbrev pub in_items : String → Value D → F → List String → FeatureMatch
  in_items feature_key value confidence [] = (truthy_value value, confidence)
  in_items feature_key value confidence (i ∷ items) =
      (some (is_in feature_key (i ∷ items)), confidence)

  abbrev pub by_items : String → Option (Value D × F) → Option FeatureMatch
  by_items feature_key none = none
  by_items feature_key (some (value, confidence)) =
      if has_feature_items value
      then some (in_items feature_key value confidence (feature_items value))
      else none

  abbrev pub or_field :
      Option (StructuredField F D)
      → (StructuredField F D → Option FeatureMatch)
      → Option FeatureMatch
      → Option FeatureMatch
  or_field none found rest = rest
  or_field (some field) found rest = found field

  unfoldable pub match_lists :
      String → Dict String (StructuredField F D) → List String → Option FeatureMatch
  unfolding resolve_structured_field truthy_value item_names have_names split
  match_lists feature_key fields [] = some (none, float_zero)
  match_lists feature_key fields (key ∷ keys) =
      or_field (get fields key)
        (λ field. by_items feature_key (answered (resolve_structured_field field)))
        (match_lists feature_key fields keys)

  unfoldable pub match_keys :
      String → Dict String (StructuredField F D) → List String → Option FeatureMatch
  unfolding match_lists
  match_keys feature_key fields [] =
      match_lists feature_key fields ("amenities" ∷ "amenity" ∷ "features" ∷ [])
  match_keys feature_key fields (key ∷ keys) =
      or_field (get fields key) (λ field. by_value (answered (resolve_structured_field field)))
        (match_keys feature_key fields keys)

  abbrev pub feature_key_of : String → String
  feature_key_of feature = py.lower (py.strip feature)

  abbrev pub normalized_keys : String → List String
  normalized_keys key = py.set_order (key ∷ replace 32 "_" key ∷ replace 95 " " key ∷ [])

  -- `_feature_match`
  unfoldable pub feature_match : RankingListing F D → String → Option FeatureMatch
  unfolding match_keys
  feature_match listing feature =
      match_keys (feature_key_of feature) listing.fields (normalized_keys (feature_key_of feature))

  abbrev pub date_of_text : D → String → Option D
  date_of_text reference t =
      if is_in t ("now" ∷ "immediate" ∷ "available" ∷ "available now" ∷ [])
      then some reference
      else if truthy t
      then py.parse_date t
      else none

  -- `_parse_availability_date`
  unfoldable pub parse_availability_date : D → Value D → Option D
  parse_availability_date reference (day x) = some x
  parse_availability_date reference (json (text t)) = date_of_text reference (py.lower (py.strip t))
  parse_availability_date reference value = none
