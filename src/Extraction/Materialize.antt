-- ===== src/Extraction/Materialize.antt =====
-- `materialize_candidates` of services/extraction/service.py. The ids that `deterministic_id` makes
-- are functions of what they are made of, which can be given as JSON text; `uuid` is what
-- `str(uuid4())` would return for an empty id.
pub mod Stored
pub mod Total
use text.Mathlib.Text.{starts_with}
use apartment_finder.Prelude.{
  ℕ, String, Bool, true, false, Option, none, some, List, [], ◌∷◌, ◌++◌, if◌then◌else◌, string_eq,
}
use apartment_finder.Prelude.Result.{Result, ok, err, ◌>>=◌, ◌>>◌}
use apartment_finder.Common.Enums.{EvidenceKind}
use apartment_finder.Common.Conversion.{Conversion}
use apartment_finder.Common.Json.{Json, null}
use apartment_finder.Facts.Store.{
  ParsedInt, FactStore, FactError, EvidenceRecord, FactRecord, NewFact, add_evidence, add_fact,
}
use apartment_finder.Extraction.Models.{SnapshotContent, EvidenceRef, FieldCandidate}
use apartment_finder.Extraction.Evidence.{
  EvidenceIssue, ValidateError, Issues, validate_evidence_ref, kind_of,
}

-- What materializing may raise: an error of the fact store, what the validation of a reference
-- raises, the ValueError of an unknown kind.
pub data MaterializeError : Type 0 where
  fact_error : FactError → MaterializeError
  raised : ValidateError → MaterializeError
  value_error : MaterializeError

pub record ExtractionIds : Type 0 where
  pub evidence : EvidenceRef → String
  pub entity : String → SnapshotContent → FieldCandidate → String
  pub fact : String → FieldCandidate → String
  pub uuid : String

abbrev pub Answer : Type 0
Answer = Result MaterializeError (FactStore × List EvidenceIssue)

abbrev pub from_facts : {A : Type 0} → Result FactError A → Result MaterializeError A
from_facts (ok a) = ok a
from_facts (err e) = err (fact_error e)

abbrev pub known_kind : Option EvidenceKind → Result MaterializeError EvidenceKind
known_kind none = err value_error
known_kind (some kind) = ok kind

module _ (to_int : Json → Conversion ParsedInt) (sha256_text : String → String)
    (ids : ExtractionIds) (snapshot : SnapshotContent) (observation_id : String)
    (extracted_at : ℕ) where
  -- The issues of a reference before those of the others.
  abbrev pub with_issues : Issues → Issues → Issues
  with_issues (err e) rest = err e
  with_issues (ok issues) (err e) = err e
  with_issues (ok issues) (ok rest) = ok (issues ++ rest)

  unfoldable pub all_issues : Option String → List EvidenceRef → Issues
  all_issues field_path [] = ok []
  all_issues field_path (ref ∷ refs) =
      with_issues (validate_evidence_ref to_int sha256_text field_path ref snapshot)
        (all_issues field_path refs)

  -- The evidence that is stored for the references, by id.
  unfoldable pub add_refs :
      List EvidenceRef → FactStore → Result MaterializeError (List String × FactStore)
  add_refs [] s = ok ([], s)
  add_refs (ref ∷ refs) s = do
    kind ← known_kind (kind_of ref.kind)
    added ← from_facts (
        add_evidence to_int ids.uuid extracted_at ref.snapshot_id kind ref.locator ref.excerpt
          (some (ids.evidence ref)) (some extracted_at) s)
    rest ← add_refs refs added.1
    ok (added.0.evidence_id ∷ rest.0, rest.1)

  abbrev pub entity_type : String → String
  entity_type field_path = if starts_with field_path "/units/" then "unit" else "listing"

  abbrev pub new_fact : FieldCandidate → List String → NewFact
  new_fact c evidence_ids = record {
    observation_id = observation_id;
    entity_type = entity_type c.field_path;
    entity_id = ids.entity (entity_type c.field_path) snapshot c;
    field_path = c.field_path;
    value_json = c.value;
    confidence = c.confidence;
    extractor = c.extractor;
    extracted_at = some extracted_at;
    is_canonical = false;
    evidence_ids = evidence_ids;
    fact_id = some (ids.fact observation_id c);
  }

  -- A candidate whose references have no issue.
  unfoldable pub store_candidate : FieldCandidate → FactStore → Result MaterializeError FactStore
  unfolding add_refs
  store_candidate c s = do
    evidence ← add_refs c.evidence s
    added ← from_facts (add_fact ids.uuid extracted_at (new_fact c evidence.0) evidence.1)
    ok added.1

  abbrev pub missing : FieldCandidate → String → String → EvidenceIssue
  missing c code message = record {
    code = code;
    message = message;
    severity = "error";
    field_path = some c.field_path;
  }

  abbrev pub with_no_issue : List EvidenceIssue → Result MaterializeError FactStore → Answer
  with_no_issue issues (ok s) = ok (s, issues)
  with_no_issue issues (err e) = err e

  abbrev pub store_valid : FieldCandidate → Issues → FactStore → List EvidenceIssue → Answer
  store_valid c (err e) s issues = err (raised e)
  store_valid c (ok []) s issues = with_no_issue issues (store_candidate c s)
  store_valid c (ok (i ∷ more)) s issues = ok (s, issues ++ i ∷ more)

  abbrev pub check_confidence :
      FieldCandidate → Option String → FactStore → List EvidenceIssue → Answer
  check_confidence c none s issues =
      ok (s, issues ++ missing c "confidence_missing" "non-null field missing confidence" ∷ [])
  check_confidence c (some confidence) s issues =
      store_valid c (all_issues (some c.field_path) c.evidence) s issues

  abbrev pub check_evidence :
      FieldCandidate → List EvidenceRef → FactStore → List EvidenceIssue → Answer
  check_evidence c [] s issues =
      ok (s, issues ++ missing c "evidence_missing" "non-null field missing evidence" ∷ [])
  check_evidence c (ref ∷ refs) s issues = check_confidence c c.confidence s issues

  abbrev pub check_value : FieldCandidate → Json → FactStore → List EvidenceIssue → Answer
  check_value c null s issues = ok (s, issues)
  check_value c _ s issues = check_evidence c c.evidence s issues

  unfoldable pub materialize_from : List FieldCandidate → FactStore → List EvidenceIssue → Answer
  unfolding all_issues store_candidate
  materialize_from [] s issues = ok (s, issues)
  materialize_from (c ∷ cs) s issues = do
    next ← check_value c c.value s issues
    materialize_from cs next.0 next.1

  unfoldable pub materialize_candidates : List FieldCandidate → Answer
  unfolding materialize_from
  materialize_candidates candidates =
      materialize_from candidates (record { evidence = []; facts = []; links = [] }) []
