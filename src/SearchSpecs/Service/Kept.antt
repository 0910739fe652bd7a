-- ===== src/SearchSpecs/Service/Kept.antt =====
-- What the creation of a specification leaves.
use apartment_finder.Prelude.{
  ◌≡◌, refl, ◌⊎◌, String, none, some, List, [], ◌∷◌, inl, inr, string_eq, Bool-cases, ◌==◌,
}
use apartment_finder.Prelude.Dict.{get, get-put_self}
use apartment_finder.Prelude.Order.{Order}
use apartment_finder.Prelude.Result.{Result, ok, err}
use apartment_finder.SearchSpecs.Models.{SearchSpec}
use apartment_finder.SearchSpecs.Parser.{
  SpecError, SearchSpecParseResult, ParserConfig, validate_constraints, accepted, parse_validated,
  normalize,
}
use apartment_finder.SearchSpecs.Parser.Accepted.{IsConsistent, validate_constraints-IsConsistent}
use apartment_finder.SearchSpecs.Service.{
  SearchSpecRepository, Created, add_parsed, create_from_payload,
}

module _ {F D Payload : Type 0} ⦃o : Order F⦄ (config : ParserConfig F D Payload)
    (specs : SearchSpecRepository F D) where
  -- A consistent specification was kept, or nothing was.
  abbrev pub IsSettled : Created config → Type 0
  IsSettled r =
      ((spec : SearchSpec F D) × (r.0.created ≡ some spec)
        × (r.0.errors ≡ [])
        × (get r.1 spec.search_spec_id ≡ some spec)
        × IsConsistent config spec.hard)
      ⊎ ((r.0.created ≡ none) × (r.1 ≡ specs))

  abbrev settled : SearchSpecParseResult F D → Created config
  settled parsed = add_parsed config parsed.spec parsed.errors specs

  accepted-IsSettled :
      (spec : SearchSpec F D) (errors : List SpecError)
      → validate_constraints config spec.hard ≡ errors
      → IsSettled (settled (accepted config spec errors))
  accepted-IsSettled spec [] h = inl (
    spec,
    refl,
    refl,
    get-put_self specs spec.search_spec_id spec,
    validate_constraints-IsConsistent config spec.hard h,
  )
  accepted-IsSettled spec (e ∷ errors) h = inr (refl, refl)

  parse_validated-IsSettled :
      (validated : Result (List (String × String)) (SearchSpec F D))
      → IsSettled (settled (parse_validated config validated))
  parse_validated-IsSettled (err errors) = inr (refl, refl)
  parse_validated-IsSettled (ok spec) =
      elim (Bool-cases (spec.schema_version == config.schema_version)) [
        | inl same ↦ rw same (accepted-IsSettled (normalize config spec) _ refl)
        | inr other ↦ rw other (inr (refl, refl))
      ]

  -- Whatever the payload is, a specification is created without errors, is found under its id and has
  -- no negative limit, no minimum above a maximum, not both ways to say when to move in, a label and a
  -- limit that is not negative for each commute, and only known neighborhoods; or none is created, and
  -- the repository is as it was.
  pub create_from_payload-IsSettled :
      (payload : Payload) → IsSettled (create_from_payload config payload specs)
  unfolding create_from_payload
  create_from_payload-IsSettled payload = parse_validated-IsSettled (config.model_validate payload)
