-- ===== src/Facts/Store.antt =====
-- services/common/facts.py. A confidence is kept as its text, since the store only asks whether it
-- is there. `fresh` is what `str(uuid4())` returns and `now` what `_now()` does.
use apartment_finder.Prelude.{
  ℕ, ◌+◌, String, Bool, true, false, ◌||◌, Option, none, some, List, [], ◌∷◌, ◌++◌, leb, or_else,
  is_none, string_eq,
}
use apartment_finder.Prelude.Dict.{Dict, get, put}
use apartment_finder.Prelude.Result.{Result, ok, err, raise_if, ◌>>=◌, ◌>>◌}
use apartment_finder.Common.Enums.{EvidenceKind, text_span, image_region}
use apartment_finder.Common.Json.{Json, null}
use apartment_finder.Common.Conversion.{Conversion, converted, unreadable, overflowing, both}
use apartment_finder.Common.Text.{text_or}

-- What `int(value)` gives of a value where it raises nothing; `negative n` is `-(n + 1)`.
pub data ParsedInt : Type 0 where
  non_negative : ℕ → ParsedInt
  negative : ℕ → ParsedInt

abbrev pub is_negative : ParsedInt → Bool
is_negative (non_negative n) = false
is_negative (negative n) = true

-- `start >= end`, for the two numbers that have passed the sign tests.
abbrev pub magnitude : ParsedInt → ℕ
magnitude (non_negative n) = n
magnitude (negative n) = n

pub record EvidenceRecord : Type 0 where
  pub evidence_id : String
  pub snapshot_id : String
  pub kind : EvidenceKind
  pub locator : Dict String Json
  pub excerpt : Option String
  pub created_at : ℕ

pub record FactRecord : Type 0 where
  pub fact_id : String
  pub observation_id : String
  pub entity_type : String
  pub entity_id : String
  pub field_path : String
  pub value_json : Json
  pub confidence : Option String
  pub extractor : String
  pub extracted_at : ℕ
  pub is_canonical : Bool

pub record FactEvidenceLink : Type 0 where
  pub fact_id : String
  pub evidence_id : String
  pub rank : ℕ

pub data FactError : Type 0 where
  evidence_validation : String → FactError
  fact_validation : String → FactError
  conversion : FactError
  overflow : FactError

pub record FactStore : Type 0 where
  pub evidence : Dict String EvidenceRecord
  pub facts : Dict String FactRecord
  pub links : List FactEvidenceLink

-- `int(locator[key])`; a missing key is a KeyError.
module _ (to_int : Json → Conversion ParsedInt) where
  abbrev pub int_of : Option Json → Conversion ParsedInt
  int_of none = unreadable
  int_of (some j) = to_int j

  abbrev pub check_span : Conversion (ParsedInt × ParsedInt) → Result FactError (Unit {0})
  check_span (converted (start, stop)) =
      raise_if (is_negative start || (is_negative stop || leb (magnitude stop) (magnitude start)))
        (evidence_validation "text_span locator must have start_char < end_char")
  check_span unreadable = err (evidence_validation "text_span requires start_char and end_char")
  check_span overflowing = err overflow

  unfoldable pub validate_text_span : Dict String Json → Result FactError (Unit {0})
  validate_text_span locator =
      check_span (both (int_of (get locator "start_char")) (int_of (get locator "end_char")))

  -- `int(...)` stands outside of any `try` here.
  abbrev pub or_conversion : Conversion ParsedInt → Result FactError ParsedInt
  or_conversion unreadable = err conversion
  or_conversion overflowing = err overflow
  or_conversion (converted n) = ok n

  -- `n <= 0`
  abbrev pub is_not_positive : ParsedInt → Bool
  is_not_positive (non_negative n) = leb n 0
  is_not_positive (negative n) = true

  unfoldable pub validate_image_region : Dict String Json → Result FactError (Unit {0})
  validate_image_region locator = do
    raise_if
        (is_none (get locator "width")
          || (is_none (get locator "height")
              || (is_none (get locator "x") || is_none (get locator "y"))))
        (evidence_validation "image_region requires x, y, width, height")
    width ← or_conversion (int_of (get locator "width"))
    height ← or_conversion (int_of (get locator "height"))
    raise_if (is_not_positive width || is_not_positive height)
        (evidence_validation "image_region requires positive width and height")

  abbrev pub validate_locator : EvidenceKind → Dict String Json → Result FactError (Unit {0})
  validate_locator text_span locator = validate_text_span locator
  validate_locator image_region locator = validate_image_region locator

  abbrev pub stored_evidence : EvidenceRecord → FactStore → Unit {0} → EvidenceRecord × FactStore
  stored_evidence new s done = (new, record s { evidence = put s.evidence new.evidence_id new })

  unfoldable pub add_evidence :
      (fresh : String) (now : ℕ) (snapshot_id : String) (kind : EvidenceKind)
      (locator : Dict String Json) (excerpt evidence_id : Option String) (created_at : Option ℕ)
      (s : FactStore)
      → Result FactError (EvidenceRecord × FactStore)
  unfolding validate_text_span validate_image_region
  add_evidence fresh now snapshot_id kind locator excerpt evidence_id created_at s = do
    let new : EvidenceRecord = record {
      evidence_id = text_or evidence_id fresh;
      snapshot_id = snapshot_id;
      kind = kind;
      locator = locator;
      excerpt = excerpt;
      created_at = or_else created_at now;
    }
    done ← validate_locator kind locator
    ok (stored_evidence new s done)

-- What is given for a new fact.
pub record NewFact : Type 0 where
  pub observation_id : String
  pub entity_type : String
  pub entity_id : String
  pub field_path : String
  pub value_json : Json
  pub confidence : Option String
  pub extractor : String
  pub extracted_at : Option ℕ
  pub is_canonical : Bool
  pub evidence_ids : List String
  pub fact_id : Option String

abbrev pub is_empty : List String → Bool
is_empty [] = true
is_empty (x ∷ xs) = false

-- `value_json is not None`
unfoldable pub validate_value : Json → List String → Option String → Result FactError (Unit {0})
validate_value null evidence_ids confidence = ok tt
validate_value _ evidence_ids confidence = do
  raise_if (is_empty evidence_ids) (fact_validation "Evidence required for non-null fields")
  raise_if (is_none confidence) (fact_validation "Confidence required for non-null fields")

unfoldable pub validate_evidence_ids :
    List String → Dict String EvidenceRecord → Result FactError (Unit {0})
validate_evidence_ids [] evidence = ok tt
validate_evidence_ids (evidence_id ∷ ids) evidence = do
  raise_if (is_none (get evidence evidence_id)) (fact_validation "Evidence id does not exist")
  validate_evidence_ids ids evidence

-- `enumerate(evidence_ids, start=rank)`
unfoldable pub links_from : String → ℕ → List String → List FactEvidenceLink
links_from fact_id rank [] = []
links_from fact_id rank (evidence_id ∷ ids) =
    record { fact_id = fact_id; evidence_id = evidence_id; rank = rank }
    ∷ links_from fact_id (rank + 1) ids

unfoldable pub add_fact :
    String → ℕ → NewFact → FactStore → Result FactError (FactRecord × FactStore)
add_fact fresh now f s = do
  validate_value f.value_json f.evidence_ids f.confidence
  validate_evidence_ids f.evidence_ids s.evidence
  let new : FactRecord = record {
    fact_id = text_or f.fact_id fresh;
    observation_id = f.observation_id;
    entity_type = f.entity_type;
    entity_id = f.entity_id;
    field_path = f.field_path;
    value_json = f.value_json;
    confidence = f.confidence;
    extractor = f.extractor;
    extracted_at = or_else f.extracted_at now;
    is_canonical = f.is_canonical;
  }
  ok (
    new,
    record s {
      facts = put s.facts new.fact_id new;
      links = s.links ++ links_from new.fact_id 1 f.evidence_ids;
    },
  )
