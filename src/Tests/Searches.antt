-- ===== src/Tests/Searches.antt =====
-- The theorems on services/searchspec at concrete values.
use apartment_finder.Prelude.{ℕ, [], ◌∷◌}
use apartment_finder.Prelude.Order.{nat_order}
use apartment_finder.Prelude.Result.{ok}
use apartment_finder.SearchSpecs.Models.{SearchSpec}
use apartment_finder.SearchSpecs.Parser.{ParserConfig}
use apartment_finder.SearchSpecs.Service.{create_from_payload}
use apartment_finder.SearchSpecs.Service.Kept.{IsSettled, create_from_payload-IsSettled}
use apartment_finder.Tests.Ranked.{wanted}

-- The payload is the specification itself.
abbrev parser : ParserConfig ℕ ℕ (SearchSpec ℕ ℕ)
parser = record {
  schema_version = "v1";
  known_neighborhoods = "Mission" ∷ [];
  neighborhood_aliases = [];
  feature_aliases = [];
  model_validate = λ spec. ok spec;
  uuid = "u1";
  zero = 0;
  strip = λ t. t;
  lower = λ t. t;
  words = λ t. t ∷ [];
}

create_from_payload-IsSettled_example : IsSettled parser [] (create_from_payload parser wanted [])
create_from_payload-IsSettled_example = create_from_payload-IsSettled parser [] wanted
