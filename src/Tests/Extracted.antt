-- ===== src/Tests/Extracted.antt =====
-- The theorems on services/extraction at concrete values.
use apartment_finder.Common.Conversion.{unreadable, converted, Conversion}
use apartment_finder.Prelude.{
  if◌then◌else◌, false, ◌≡◌, refl, ◌⊎◌, ◌↔◌, String, true, none, some, List, [], ◌∷◌, string_eq,
}
use apartment_finder.Prelude.Dict.{get}
use apartment_finder.Prelude.Result.{ok, err}
use apartment_finder.Common.Json.{Json, number, text}
use apartment_finder.Facts.Store.{ParsedInt, non_negative, FactStore}
use apartment_finder.Facts.Provenance.{IsProven}
use apartment_finder.Extraction.Models.{SnapshotContent, EvidenceRef, FieldCandidate}
use apartment_finder.Extraction.Evidence.{
  kind_of, EvidenceIssue, ValidateError, validate_evidence_ref, resolve_text_span, matches_excerpt,
  matches_hash,
}
use apartment_finder.Extraction.Evidence.Sound.{validate_evidence_ref-resolve_text_span}
use apartment_finder.Extraction.Materialize.{ExtractionIds, raised, materialize_candidates}
use apartment_finder.Extraction.Materialize.Total.{materialize_candidates-IsProven}

abbrev read_int : Json → Conversion ParsedInt
read_int (number t nonzero) = converted (non_negative (if nonzero then 5 else 0))
read_int j = unreadable

abbrev sha : String → String
sha t = t

abbrev page : SnapshotContent
page = record {
  snapshot_id = "s1";
  source_id = "zillow";
  html = none;
  text = some "2 bed";
  markdown = none;
  images = [];
}

abbrev whole_page : EvidenceRef
whole_page = record {
  snapshot_id = "s1";
  kind = "text_span";
  locator = ("start_char", number "0" false) ∷ ("end_char", number "5" true) ∷ [];
  excerpt = some "2 bed";
}

validate_evidence_ref-resolve_text_span_example :
    (validate_evidence_ref read_int sha none whole_page page ≡ ok []) ↔ (
      (span : String) × (resolve_text_span read_int sha page whole_page.locator ≡ ok span)
      × (matches_excerpt whole_page.excerpt span ≡ true)
      × (matches_hash read_int sha (get whole_page.locator "text_hash") span ≡ true))
unfolding kind_of
validate_evidence_ref-resolve_text_span_example =
    validate_evidence_ref-resolve_text_span read_int sha none whole_page page refl refl

abbrev ids : ExtractionIds
ids = record {
  evidence = λ ref. "e1";
  entity = λ kind snapshot candidate. "l1";
  fact = λ observation candidate. "f1";
  uuid = "u1";
}

abbrev beds : FieldCandidate
beds = record {
  field_path = "/listing/beds";
  value = text "2";
  confidence = some "0.9";
  evidence = whole_page ∷ [];
  extractor = "deterministic";
}

materialize_candidates-IsProven_example :
    ((e : ValidateError) × (materialize_candidates read_int sha ids page "o1" 7 (beds ∷ [])
        ≡ err (raised e)))
    ⊎ ((s : FactStore) × (issues : List EvidenceIssue) × (materialize_candidates read_int sha ids
            page "o1" 7
            (beds ∷ [])
          ≡ ok (s, issues))
        × IsProven s)
materialize_candidates-IsProven_example =
    materialize_candidates-IsProven read_int sha ids page "o1" 7 (beds ∷ [])
