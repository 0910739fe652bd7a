-- ===== src/Extraction/Materialize/Total.antt =====
-- Materializing asks nothing of the fact store that the store refuses.
use apartment_finder.Extraction.Materialize.Stored.{has_none, store_candidate_lem}
use apartment_finder.Prelude.{
  ℕ, String, false, ◌≡◌, refl, ◌⊎◌, inl, inr, Option, none, some, List, [], ◌∷◌, ◌++◌, is_none,
  string_eq, arith,
}
use apartment_finder.Prelude.Dict.{get}
use apartment_finder.Prelude.Result.{Result, ok, err}
use apartment_finder.Common.Conversion.{Conversion}
use apartment_finder.Common.Json.{Json, null}
use apartment_finder.Facts.Store.{ParsedInt, FactStore}
use apartment_finder.Extraction.Models.{SnapshotContent, EvidenceRef, FieldCandidate}
use apartment_finder.Extraction.Evidence.{EvidenceIssue, ValidateError, Issues}
use apartment_finder.Extraction.Materialize.{
  ExtractionIds, MaterializeError, all_issues, store_valid, check_confidence, check_evidence,
  check_value, materialize_from, materialize_candidates, raised,
}
use apartment_finder.Facts.Provenance.{IsProven}

issues-cases :
    (x : Issues)
    → ((e : ValidateError) × (x ≡ err e))
      ⊎ ((x ≡ ok []) ⊎ ((i : EvidenceIssue) × (more : List EvidenceIssue) × (x ≡ ok (i ∷ more))))
issues-cases (err e) = inl (e, refl)
issues-cases (ok []) = inr (inl refl)
issues-cases (ok (i ∷ more)) = inr (inr (i, more, refl))

nothing_stored : IsProven (record { evidence = []; facts = []; links = [] })
unfolding get
nothing_stored k f found = absurd (ground arith)

module _ (to_int : Json → Conversion ParsedInt) (sha256_text : String → String)
    (ids : ExtractionIds) (snapshot : SnapshotContent) (observation_id : String)
    (extracted_at : ℕ) where
  -- Proven, in a store that is returned.
  abbrev pub ReturnsProven : Result MaterializeError (FactStore × List EvidenceIssue) → Type 0
  ReturnsProven r =
      ((e : ValidateError) × (r ≡ err (raised e)))
      ⊎ ((s : FactStore) × (issues : List EvidenceIssue) × (r ≡ ok (s, issues)) × IsProven s)

  store_valid_lem :
      (c : FieldCandidate) (s : FactStore) (issues : List EvidenceIssue)
      → IsProven s
      → is_none c.confidence ≡ false
      → has_none c.evidence ≡ false
      → ReturnsProven (
          store_valid to_int sha256_text ids snapshot observation_id extracted_at c
            (all_issues to_int sha256_text ids snapshot observation_id extracted_at
              (some c.field_path)
              c.evidence)
            s
            issues)
  store_valid_lem c s issues proven confident referred =
      elim (issues-cases (
        all_issues to_int sha256_text ids snapshot observation_id extracted_at (some c.field_path)
          c.evidence)) [
            | inl (e, failed) ↦ inl (e, rw failed refl)
            | inr (inl e) ↦
                let (s', run, proven') =
                  store_candidate_lem to_int sha256_text ids snapshot observation_id extracted_at c
                    s proven confident referred e in
                inr (s', issues, rw (e, run) refl, proven')
            | inr (inr (x, more, e)) ↦ inr (s, issues ++ x ∷ more, rw e refl, proven)
          ]

  check_confidence_lem :
      (c : FieldCandidate) (confidence : Option String) (s : FactStore)
      (issues : List EvidenceIssue)
      → IsProven s
      → c.confidence ≡ confidence
      → has_none c.evidence ≡ false
      → ReturnsProven (
          check_confidence to_int sha256_text ids snapshot observation_id extracted_at c confidence
            s issues)
  check_confidence_lem c none s issues proven same referred = inr (s, _, refl, proven)
  check_confidence_lem c (some x) s issues proven same referred =
      store_valid_lem c s issues proven (rw same refl) referred

  check_evidence_lem :
      (c : FieldCandidate) (refs : List EvidenceRef) (s : FactStore) (issues : List EvidenceIssue)
      → IsProven s
      → c.evidence ≡ refs
      → ReturnsProven (
          check_evidence to_int sha256_text ids snapshot observation_id extracted_at c refs s
            issues)
  check_evidence_lem c [] s issues proven same = inr (s, _, refl, proven)
  check_evidence_lem c (ref ∷ refs) s issues proven same =
      check_confidence_lem c c.confidence s issues proven refl (rw same refl)

  check_value_lem :
      (c : FieldCandidate) (value : Json) (s : FactStore) (issues : List EvidenceIssue)
      → IsProven s
      → ReturnsProven
          (check_value to_int sha256_text ids snapshot observation_id extracted_at c value s issues)
  check_value_lem c null s issues proven = inr (s, issues, refl, proven)
  check_value_lem c _ s issues proven = check_evidence_lem c c.evidence s issues proven refl

  materialize_from_lem :
      (cs : List FieldCandidate) (s : FactStore) (issues : List EvidenceIssue)
      → IsProven s
      → ReturnsProven
          (materialize_from to_int sha256_text ids snapshot observation_id extracted_at cs s issues)
  unfolding materialize_from
  materialize_from_lem [] s issues proven = inr (s, issues, refl, proven)
  materialize_from_lem (c ∷ cs) s issues proven = elim (check_value_lem c c.value s issues proven) [
    | inl (e, failed) ↦ inl (e, rw failed refl)
    | inr (s', more, run, proven') ↦ rw run (materialize_from_lem cs s' more proven')
  ]

  -- Where the ids and the hashes are made without an exception, whatever else the candidates and the
  -- snapshot are, materializing them raises no error of the fact store and no ValueError of an
  -- unknown kind. It raises what the validation of a reference raises, the TypeError of an image
  -- reference that cannot be a key or the OverflowError of an `int`, or it returns a store, and in
  -- the store it returns each fact with a value has a confidence and a link to evidence that the
  -- store holds.
  pub materialize_candidates-IsProven :
      (candidates : List FieldCandidate)
      → ((e : ValidateError) × (materialize_candidates to_int sha256_text ids snapshot
              observation_id extracted_at candidates
            ≡ err (raised e)))
        ⊎ ((s : FactStore) × (issues : List EvidenceIssue) × (materialize_candidates to_int
                sha256_text ids snapshot observation_id extracted_at candidates
              ≡ ok (s, issues))
            × IsProven s)
  unfolding materialize_candidates
  materialize_candidates-IsProven candidates = materialize_from_lem candidates _ [] nothing_stored
