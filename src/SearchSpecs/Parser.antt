-- ===== src/SearchSpecs/Parser.antt =====
-- services/searchspec/parser.py. Parameters: pydantic's validation, with the message and the path of
-- each of its errors, what uuid4 returns, and Python's `strip`, `lower` and `split`. That a missing
-- time of creation is replaced is left out: it is never missing.
pub mod Accepted
use Prim.Native.String.{◌++◌ as append_text}
use apartment_finder.Prelude.{
  String, Bool, true, false, not, ◌&&◌, Option, none, some, is_none, List, [], ◌∷◌, ◌++◌, map,
  or_else, if◌then◌else◌, string_eq, ◌==◌,
}
use apartment_finder.Prelude.Dict.{Dict, get, put}
use apartment_finder.Prelude.Order.{Order}
use apartment_finder.Prelude.Result.{Result, ok, err}
use apartment_finder.Common.Text.{truthy, is_in, replace}
use apartment_finder.Common.Floats.{is_below}
use apartment_finder.SearchSpecs.Models.{
  CommuteMax, SearchSpecHard, SearchSpecSoft, SearchSpecExploration, SearchSpec,
}

pub record SpecError : Type 0 where
  pub code : String
  pub message : String
  pub path : String

pub record SearchSpecParseResult (F D : Type 0) : Type 0 where
  pub spec : Option (SearchSpec F D)
  pub errors : List SpecError

-- What `SearchSpecParser.__init__` keeps, and the parameters of the model. The tables are already
-- in lower case.
pub record ParserConfig (F D Payload : Type 0) : Type 0 where
  pub schema_version : String
  pub known_neighborhoods : List String
  pub neighborhood_aliases : Dict String String
  pub feature_aliases : Dict String String
  pub model_validate : Payload → Result (List (String × String)) (SearchSpec F D)
  pub uuid : String
  pub zero : F
  pub strip : String → String
  pub lower : String → String
  pub words : String → List String

-- `" ".join(words)`
unfoldable pub join_words : List String → String
join_words [] = ""
join_words (w ∷ []) = w
join_words (w ∷ v ∷ ws) = append_text w (append_text " " (join_words (v ∷ ws)))

-- The errors of one test.
abbrev pub error_if : Bool → String → String → String → List SpecError
error_if true code message path = record { code = code; message = message; path = path } ∷ []
error_if false code message path = []

module _ {F D Payload : Type 0} ⦃o : Order F⦄ (config : ParserConfig F D Payload) where
  abbrev pub normalize_text : String → String
  normalize_text value = join_words (config.words (config.lower (config.strip value)))

  abbrev pub normalize_prompt : Option String → Option String
  normalize_prompt none = none
  normalize_prompt (some value) = some (normalize_text value)

  abbrev pub feature_of : String → String
  feature_of cleaned = or_else (get config.feature_aliases cleaned) (replace 32 "_" cleaned)

  unfoldable pub normalize_features : List String → List String
  unfolding join_words replace
  normalize_features [] = []
  normalize_features (val ∷ values) =
      let rest = normalize_features values in
      if truthy (normalize_text val) then feature_of (normalize_text val) ∷ rest else rest

  unfoldable pub normalize_neighborhoods : List String → List String
  unfolding join_words
  normalize_neighborhoods [] = []
  normalize_neighborhoods (val ∷ values) =
      let rest = normalize_neighborhoods values in
      if truthy (normalize_text val)
      then or_else (get config.neighborhood_aliases (normalize_text val)) (normalize_text val)
        ∷ rest
      else rest

  unfoldable pub normalize_weights : Dict String F → Dict String F → Dict String F
  unfolding join_words
  normalize_weights [] weights = weights
  normalize_weights ((key, value) ∷ given) weights =
      normalize_weights given (put weights (normalize_text key) value)

  abbrev pub normalize_commute : CommuteMax F → CommuteMax F
  normalize_commute item = record item { target_label = normalize_text item.target_label }

  abbrev pub normalize_hard : SearchSpecHard F D → SearchSpecHard F D
  normalize_hard hard = record hard {
    neighborhoods_include = normalize_neighborhoods hard.neighborhoods_include;
    neighborhoods_exclude = normalize_neighborhoods hard.neighborhoods_exclude;
    must_have = normalize_features hard.must_have;
    exclude = normalize_features hard.exclude;
    commute_max = map normalize_commute hard.commute_max;
  }

  abbrev pub normalize_soft : SearchSpecSoft F → SearchSpecSoft F
  normalize_soft soft = record {
    weights = normalize_weights soft.weights [];
    nice_to_have = normalize_features soft.nice_to_have;
    vibe = map normalize_text soft.vibe;
  }

  abbrev pub normalize : SearchSpec F D → SearchSpec F D
  normalize spec = record spec {
    search_spec_id = if truthy spec.search_spec_id then spec.search_spec_id else config.uuid;
    raw_prompt = normalize_prompt spec.raw_prompt;
    hard = normalize_hard spec.hard;
    soft = normalize_soft spec.soft;
    exploration = record spec.exploration { rules = map normalize_text spec.exploration.rules };
  }

  -- `value is not None and value < 0`
  abbrev pub is_below_zero : Option F → Bool
  is_below_zero none = false
  is_below_zero (some value) = is_below value config.zero

  abbrev pub is_inverted : Option F → Option F → Bool
  is_inverted (some low) (some high) = is_below high low
  is_inverted low high = false

  abbrev pub is_given : Option Bool → Bool
  is_given (some true) = true
  is_given now = false

  unfoldable pub commute_errors : List (CommuteMax F) → List SpecError
  commute_errors [] = []
  commute_errors (entry ∷ entries) =
      error_if (not (truthy entry.target_label)) "missing_required"
        "commute_max.target_label is required" "/hard/commute_max"
      ++ error_if (is_below entry.max_min config.zero) "value_range"
          "commute_max.max_min must be non-negative" "/hard/commute_max"
      ++ commute_errors entries

  unfoldable pub neighborhood_errors : List String → List SpecError
  unfolding is_in
  neighborhood_errors [] = []
  neighborhood_errors (name ∷ names) =
      error_if (truthy name && not (is_in name config.known_neighborhoods)) "unknown_neighborhood"
        (append_text "Unknown neighborhood: " name) "/hard/neighborhoods"
      ++ neighborhood_errors names

  -- `_validate_constraints`
  unfoldable pub validate_constraints : SearchSpecHard F D → List SpecError
  unfolding commute_errors neighborhood_errors
  validate_constraints hard =
      error_if (is_below_zero hard.price_min) "value_range" "price_min must be non-negative"
        "/hard/price_min"
      ++ error_if (is_below_zero hard.price_max) "value_range" "price_max must be non-negative"
          "/hard/price_max"
      ++ error_if (is_inverted hard.price_min hard.price_max) "value_range"
          "price_min must be <= price_max" "/hard/price_min"
      ++ error_if (is_below_zero hard.beds_min) "value_range" "beds_min must be non-negative"
          "/hard/beds_min"
      ++ error_if (is_below_zero hard.baths_min) "value_range" "baths_min must be non-negative"
          "/hard/baths_min"
      ++ error_if (is_given hard.available_now && not (is_none hard.move_in_after))
          "invalid_combination" "available_now and move_in_after are mutually exclusive" "/hard"
      ++ commute_errors hard.commute_max
      ++ neighborhood_errors (hard.neighborhoods_include ++ hard.neighborhoods_exclude)

  abbrev pub accepted : SearchSpec F D → List SpecError → SearchSpecParseResult F D
  accepted spec [] = record { spec = some spec; errors = [] }
  accepted spec (e ∷ errors) = record { spec = none; errors = e ∷ errors }

  abbrev pub parse_validated :
      Result (List (String × String)) (SearchSpec F D) → SearchSpecParseResult F D
  parse_validated (err errors) = record {
    spec = none;
    errors = map (λ e. record { code = "schema_error"; message = e.0; path = e.1 }) errors;
  }
  parse_validated (ok spec) =
      if spec.schema_version == config.schema_version
      then accepted (normalize spec) (validate_constraints (normalize spec).hard)
      else record {
        spec = none;
        errors =
            error_if true "schema_version_mismatch"
              (append_text "schema_version must be " config.schema_version) "/schema_version";
      }

  unfoldable pub parse : Payload → SearchSpecParseResult F D
  unfolding validate_constraints normalize_weights normalize_features normalize_neighborhoods
  parse payload = parse_validated (config.model_validate payload)
