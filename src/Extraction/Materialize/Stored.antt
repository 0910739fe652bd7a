-- ===== src/Extraction/Materialize/Stored.antt =====
-- A candidate whose references have no issue is stored.
use apartment_finder.Prelude.{
  ℕ, String, Bool, true, false, ◌≡◌, refl, inl, inr, Option, some, List, [], ◌∷◌, is_none,
  string_eq, arith, eq_refl,
}
use apartment_finder.Prelude.Dict.{get, put, get-put}
use apartment_finder.Common.Text.{text_or}
use apartment_finder.Prelude.Result.{Result, Result-cases, ok, err}
use apartment_finder.Common.Enums.{EvidenceKind}
use apartment_finder.Common.Conversion.{Conversion}
use apartment_finder.Common.Json.{Json, null}
use apartment_finder.Facts.Store.{
  ParsedInt, FactStore, FactError, EvidenceRecord, FactRecord, NewFact, add_evidence, add_fact,
  validate_evidence_ids, is_empty, validate_value, stored_evidence,
}
use apartment_finder.Extraction.Models.{SnapshotContent, EvidenceRef, FieldCandidate}
use apartment_finder.Extraction.Evidence.{Issues, validate_evidence_ref, kind_of}
use apartment_finder.Extraction.Materialize.{
  ExtractionIds, all_issues, add_refs, with_issues, new_fact, store_candidate,
}
use apartment_finder.Facts.Provenance.{IsProven, add_evidence-IsProven, add_fact-IsProven}
use apartment_finder.Extraction.Evidence.Sound.{validate_locator_lem}

abbrev pub has_none : List EvidenceRef → Bool
has_none [] = true
has_none (ref ∷ refs) = false

-- Evidence that was held is held.
abbrev pub Grown : FactStore → FactStore → Type 0
Grown s s' = (x : String) → is_none (get s.evidence x) ≡ false → is_none (get s'.evidence x) ≡ false

validate_value_lem :
    (j : Json) (ids : List String) (confidence : Option String)
    → is_empty ids ≡ false
    → is_none confidence ≡ false
    → validate_value j ids confidence ≡ ok tt
unfolding validate_value
validate_value_lem null ids confidence e c = refl
validate_value_lem _ ids confidence e c = rw (e, c) refl

added_of_ok :
    (fresh : String) (now : ℕ) (f : NewFact) (s : FactStore)
    → validate_value f.value_json f.evidence_ids f.confidence ≡ ok tt
    → validate_evidence_ids f.evidence_ids s.evidence ≡ ok tt
    → (new : FactRecord) × (s' : FactStore) × (add_fact fresh now f s ≡ ok (new, s'))
unfolding add_fact
added_of_ok fresh now f s value held = elim (Result-cases (add_fact fresh now f s)) [
  | inl (done, run) ↦ (done.0, done.1, run)
  | inr (e, run) ↦ absurd (ground (arith, value, held))
]

add_fact_lem :
    (fresh : String) (now : ℕ) (f : NewFact) (s : FactStore)
    → validate_evidence_ids f.evidence_ids s.evidence ≡ ok tt
    → is_empty f.evidence_ids ≡ false
    → is_none f.confidence ≡ false
    → (new : FactRecord) × (s' : FactStore) × (add_fact fresh now f s ≡ ok (new, s'))
unfolding add_fact
add_fact_lem fresh now f s held some_ids confident =
    let value = validate_value_lem f.value_json f.evidence_ids f.confidence some_ids confident in
    added_of_ok fresh now f s value held

module _ (to_int : Json → Conversion ParsedInt) (sha256_text : String → String)
    (ids : ExtractionIds) (snapshot : SnapshotContent) (observation_id : String)
    (extracted_at : ℕ) where
  abbrev added :
      EvidenceRef → EvidenceKind → FactStore → Result FactError (EvidenceRecord × FactStore)
  added ref kind s =
      add_evidence to_int ids.uuid extracted_at ref.snapshot_id kind ref.locator ref.excerpt
        (some (ids.evidence ref)) (some extracted_at) s

  add_ref_lem :
      (field_path : Option String) (ref : EvidenceRef) (s : FactStore)
      → validate_evidence_ref to_int sha256_text field_path ref snapshot ≡ ok []
      → (kind : EvidenceKind) × (new : EvidenceRecord) × (s1 : FactStore) × (kind_of ref.kind
          ≡ some kind)
        × (added ref kind s ≡ ok (new, s1))
        × (s1.evidence ≡ put s.evidence new.evidence_id new)
  unfolding add_evidence
  add_ref_lem field_path ref s valid =
      let (kind, known, fits) =
        validate_locator_lem to_int sha256_text field_path ref snapshot valid in
      let new : EvidenceRecord = record {
        evidence_id = text_or (some (ids.evidence ref)) ids.uuid;
        snapshot_id = ref.snapshot_id;
        kind = kind;
        locator = ref.locator;
        excerpt = ref.excerpt;
        created_at = extracted_at;
      } in
      (kind, new, (stored_evidence to_int new s tt).1, known, rw fits refl, refl)

  with_issues_none :
      (a b : Issues)
      → with_issues to_int sha256_text ids snapshot observation_id extracted_at a b ≡ ok []
      → (a ≡ ok []) × (b ≡ ok [])
  with_issues_none (err e) b h = absurd (cc)
  with_issues_none (ok a) (err e) h = absurd (cc)
  with_issues_none (ok []) (ok b) h = (refl, h)
  with_issues_none (ok (x ∷ a)) (ok b) h = absurd (ground arith)

  validate_evidence_ids-Grown :
      (new : List String) (s s' : FactStore)
      → Grown s s'
      → validate_evidence_ids new s.evidence ≡ ok tt
      → validate_evidence_ids new s'.evidence ≡ ok tt
  unfolding validate_evidence_ids
  validate_evidence_ids-Grown [] s s' grown h = refl
  validate_evidence_ids-Grown (x ∷ new) s s' grown h =
      ground (arith, grown x, validate_evidence_ids-Grown new s s' grown)

  add_refs_lem :
      (field_path : Option String) (refs : List EvidenceRef) (s : FactStore)
      → IsProven s
      → all_issues to_int sha256_text ids snapshot observation_id extracted_at field_path refs
        ≡ ok []
      → (new : List String) × (s' : FactStore) × (add_refs to_int sha256_text ids snapshot
            observation_id extracted_at refs s
          ≡ ok (new, s'))
        × IsProven s'
        × (validate_evidence_ids new s'.evidence ≡ ok tt)
        × Grown s s'
        × (is_empty new ≡ has_none refs)
  unfolding add_refs all_issues validate_evidence_ids
  add_refs_lem field_path [] s proven h = ([], s, refl, proven, refl, λ x held. held, refl)
  add_refs_lem field_path (ref ∷ refs) s proven h =
      let (first, others) = with_issues_none _ _ h in
      let (kind, new, s1, known, done, grown) = add_ref_lem field_path ref s first in
      let proven1 =
        add_evidence-IsProven to_int ids.uuid extracted_at ref.snapshot_id kind ref.locator
          ref.excerpt (some (ids.evidence ref)) (some extracted_at) s s1 proven done in
      let (more, s', run, proven', held, grow, some_more) =
        add_refs_lem field_path refs s1 proven1 others in
      let grow1 : Grown s s1 =
        λ x h. ground (arith, grown, get-put s.evidence new.evidence_id x new) in
      let new_held : is_none (get s1.evidence new.evidence_id) ≡ false = ground (
        arith,
        grown,
        get-put s.evidence new.evidence_id new.evidence_id new,
        eq_refl new.evidence_id,
      ) in
      (
        new.evidence_id ∷ more,
        s',
        rw (known, done, run) refl,
        proven',
        rw (grow new.evidence_id new_held) held,
        λ x h. grow x (grow1 x h),
        refl,
      )

  -- A candidate with a value, a confidence, and references without an issue, is stored.
  pub store_candidate_lem :
      (c : FieldCandidate) (s : FactStore)
      → IsProven s
      → is_none c.confidence ≡ false
      → has_none c.evidence ≡ false
      → all_issues to_int sha256_text ids snapshot observation_id extracted_at
          (some c.field_path)
          c.evidence
        ≡ ok []
      → (s' : FactStore) × (store_candidate to_int sha256_text ids snapshot observation_id
            extracted_at c s
          ≡ ok s')
        × IsProven s'
  unfolding store_candidate
  store_candidate_lem c s proven confident referred h =
      let (new, s1, run, proven1, held, grow, some_new) =
        add_refs_lem (some c.field_path) c.evidence s proven h in
      let f = new_fact to_int sha256_text ids snapshot observation_id extracted_at c new in
      let (fact, s', done) =
        add_fact_lem ids.uuid extracted_at f s1 held (rw some_new referred) confident in
      (s', rw (run, done) refl, add_fact-IsProven ids.uuid extracted_at f s1 s' proven1 done)
