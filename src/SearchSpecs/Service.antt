-- ===== src/SearchSpecs/Service.antt =====
-- services/searchspec/service.py and repository.py.
pub mod Kept
use apartment_finder.Prelude.{String, Option, none, some, List, [], ◌∷◌, string_eq}
use apartment_finder.Prelude.Dict.{Dict, get, put}
use apartment_finder.Prelude.Order.{Order}
use apartment_finder.SearchSpecs.Models.{SearchSpec}
use apartment_finder.SearchSpecs.Parser.{SpecError, SearchSpecParseResult, ParserConfig, parse}

-- `SearchSpecRepository`; a record of it only holds the specification.
abbrev pub SearchSpecRepository : Type 0 → Type 0 → Type 0
SearchSpecRepository F D = Dict String (SearchSpec F D)

pub record SearchSpecServiceResult (F D : Type 0) : Type 0 where
  pub created : Option (SearchSpec F D)
  pub errors : List SpecError

module _ {F D Payload : Type 0} ⦃o : Order F⦄ (config : ParserConfig F D Payload) where
  abbrev pub Created : Type 0
  Created = SearchSpecServiceResult F D × SearchSpecRepository F D

  abbrev pub add_parsed :
      Option (SearchSpec F D) → List SpecError → SearchSpecRepository F D → Created
  add_parsed none errors specs = (record { created = none; errors = errors }, specs)
  add_parsed (some spec) [] specs =
      (record { created = some spec; errors = [] }, put specs spec.search_spec_id spec)
  add_parsed (some spec) (e ∷ errors) specs =
      (record { created = none; errors = e ∷ errors }, specs)

  unfoldable pub create_from_payload : Payload → SearchSpecRepository F D → Created
  unfolding parse
  create_from_payload payload specs =
      add_parsed (parse config payload).spec (parse config payload).errors specs
