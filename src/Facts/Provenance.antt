-- ===== src/Facts/Provenance.antt =====
-- No fact without evidence: the invariant of the fact store.
use apartment_finder.Prelude.{
  ℕ, ◌≡◌, refl, ◌⊎◌, inl, inr, String, Bool, true, false, not, ◌&&◌, ◌||◌, Option, some, List, [],
  ◌∷◌, ◌++◌, is_none, string_eq, ◌==◌, eq_refl, eq_iff, arith, Bool-cases,
}
use mathlib.Core.Path.{subst}
use apartment_finder.Prelude.Dict.{Dict, get, put, get-put}
use apartment_finder.Prelude.Result.{ok}
use apartment_finder.Common.Enums.{EvidenceKind}
use apartment_finder.Common.Conversion.{Conversion}
use apartment_finder.Common.Json.{Json, null}
use apartment_finder.Facts.Store.{
  ParsedInt, EvidenceRecord, FactRecord, FactEvidenceLink, FactStore, NewFact, add_evidence,
  add_fact, validate_value, validate_evidence_ids, links_from, is_empty,
}

abbrev pub is_null : Json → Bool
is_null null = true
is_null _ = false

-- Some link leads from the fact to evidence that the store holds.
unfoldable pub is_supported : String → List FactEvidenceLink → Dict String EvidenceRecord → Bool
is_supported fact_id [] evidence = false
is_supported fact_id (l ∷ links) evidence =
    ((l.fact_id == fact_id) && not (is_none (get evidence l.evidence_id)))
    || is_supported fact_id links evidence

-- A fact has no value, or it has a confidence and stored evidence.
abbrev pub IsBacked : FactStore → String → FactRecord → Type 0
IsBacked s k f =
    (is_null f.value_json ≡ true)
    ⊎ ((is_none f.confidence ≡ false) × (is_supported k s.links s.evidence ≡ true))

abbrev pub IsProven : FactStore → Type 0
IsProven s = (k : String) (f : FactRecord) → get s.facts k ≡ some f → IsBacked s k f

is_supported-append :
    (k : String) (xs ys : List FactEvidenceLink) (evidence : Dict String EvidenceRecord)
    → is_supported k xs evidence ≡ true
    → is_supported k (xs ++ ys) evidence ≡ true
unfolding is_supported
is_supported-append k [] ys evidence h = cc
is_supported-append k (x ∷ xs) ys evidence h = ground (arith, is_supported-append k xs ys evidence)

is_supported_last :
    (k : String) (xs ys : List FactEvidenceLink) (evidence : Dict String EvidenceRecord)
    → is_supported k ys evidence ≡ true
    → is_supported k (xs ++ ys) evidence ≡ true
unfolding is_supported
is_supported_last k [] ys evidence h = h
is_supported_last k (x ∷ xs) ys evidence h = ground (arith, is_supported_last k xs ys evidence h)

is_supported-put :
    (k e : String) (new : EvidenceRecord) (xs : List FactEvidenceLink)
    (evidence : Dict String EvidenceRecord)
    → is_supported k xs evidence ≡ true
    → is_supported k xs (put evidence e new) ≡ true
unfolding is_supported
is_supported-put k e new [] evidence h = cc
is_supported-put k e new (x ∷ xs) evidence h =
    ground (arith, is_supported-put k e new xs evidence, get-put evidence e x.evidence_id new)

-- The links of a new fact support it, if there is one and its evidence is held.
is_supported-links_from :
    (k : String) (rank : ℕ) (ids : List String) (evidence : Dict String EvidenceRecord)
    → is_empty ids ≡ false
    → validate_evidence_ids ids evidence ≡ ok tt
    → is_supported k (links_from k rank ids) evidence ≡ true
unfolding is_supported links_from validate_evidence_ids
is_supported-links_from k rank [] evidence h v = cc
is_supported-links_from k rank (x ∷ ids) evidence h v = ground (arith, eq_refl k)

validate_value_ok :
    (j : Json) (ids : List String) (confidence : Option String)
    → validate_value j ids confidence ≡ ok tt
    → (is_null j ≡ true) ⊎ ((is_empty ids ≡ false) × (is_none confidence ≡ false))
unfolding validate_value
validate_value_ok null ids confidence h = inl refl
validate_value_ok _ ids confidence h = ground arith

-- What an accepted fact has been through, and what the store is after it.
pub add_fact_ok :
    (fresh : String) (now : ℕ) (f : NewFact) (s s' : FactStore) {new : FactRecord}
    → add_fact fresh now f s ≡ ok (new, s')
    → (validate_value f.value_json f.evidence_ids f.confidence ≡ ok tt)
      × (validate_evidence_ids f.evidence_ids s.evidence ≡ ok tt)
      × (new.value_json ≡ f.value_json)
      × (new.confidence ≡ f.confidence)
      × (s'.facts ≡ put s.facts new.fact_id new)
      × (s'.evidence ≡ s.evidence)
      × (s'.links ≡ s.links ++ links_from new.fact_id 1 f.evidence_ids)
unfolding add_fact
add_fact_ok fresh now f s s' h = ground arith

new_IsBacked :
    (f : NewFact) (s s' : FactStore) (new : FactRecord)
    → validate_value f.value_json f.evidence_ids f.confidence ≡ ok tt
    → validate_evidence_ids f.evidence_ids s.evidence ≡ ok tt
    → new.value_json ≡ f.value_json
    → new.confidence ≡ f.confidence
    → s'.evidence ≡ s.evidence
    → s'.links ≡ s.links ++ links_from new.fact_id 1 f.evidence_ids
    → IsBacked s' new.fact_id new
new_IsBacked f s s' new value held j c evidence links =
    elim (validate_value_ok f.value_json f.evidence_ids f.confidence value) [
      | inl null_value ↦ inl (rw j null_value)
      | inr (some_ids, some_confidence) ↦ inr (
        rw c some_confidence,
        rw (links, evidence)
            (is_supported_last new.fact_id s.links (links_from new.fact_id 1 f.evidence_ids)
              s.evidence
              (is_supported-links_from new.fact_id 1 f.evidence_ids s.evidence some_ids held)),
      )
    ]

old_IsBacked :
    (s s' : FactStore) (k : String) (g : FactRecord) (more : List FactEvidenceLink)
    → s'.evidence ≡ s.evidence
    → s'.links ≡ s.links ++ more
    → IsBacked s k g
    → IsBacked s' k g
old_IsBacked s s' k g more evidence links (inl null_value) = inl null_value
old_IsBacked s s' k g more evidence links (inr (c, supported)) =
    inr (c, rw (links, evidence) (is_supported-append k s.links more s.evidence supported))

grown_IsBacked :
    (s s' : FactStore) (k : String) (g : FactRecord) (new : EvidenceRecord)
    → s'.links ≡ s.links
    → s'.evidence ≡ put s.evidence new.evidence_id new
    → IsBacked s k g
    → IsBacked s' k g
grown_IsBacked s s' k g new links evidence (inl null_value) = inl null_value
grown_IsBacked s s' k g new links evidence (inr (c, supported)) =
    inr (
      c,
      rw (links, evidence) (is_supported-put k new.evidence_id new s.links s.evidence supported),
    )

-- An accepted fact keeps every stored fact backed: it has no value, or it has a confidence and a
-- link to evidence that the store holds; so also where the new fact takes the id of an old one.
pub add_fact-IsProven :
    (fresh : String) (now : ℕ) (f : NewFact) (s s' : FactStore) {new : FactRecord}
    → IsProven s
    → add_fact fresh now f s ≡ ok (new, s')
    → IsProven s'
add_fact-IsProven fresh now f s s' {new} proven h k g found =
    let e = add_fact_ok fresh now f s s' h in
    let looked : get (put s.facts new.fact_id new) k ≡ some g = rw e.4 at found in
    elim (Bool-cases (new.fact_id == k)) [
      | inl same ↦
          let g_new : new ≡ g = ground (arith, looked, get-put s.facts new.fact_id k new, same) in
          let k_new : new.fact_id ≡ k = (eq_iff new.fact_id k).0 same in
          subst (λ z. IsBacked s' z g) k_new
            (subst (λ z. IsBacked s' new.fact_id z) g_new
              (new_IsBacked f s s' new e.0 e.1 e.2 e.3 e.5 e.6))
      | inr other ↦
          old_IsBacked s s' k g _ e.5 e.6
            (proven k g (ground (arith, looked, get-put s.facts new.fact_id k new, other)))
    ]

-- Adding evidence keeps every stored fact backed.
pub add_evidence-IsProven :
    (to_int : Json → Conversion ParsedInt) (fresh : String) (now : ℕ) (snapshot_id : String)
    (kind : EvidenceKind) (locator : Dict String Json) (excerpt evidence_id : Option String)
    (created_at : Option ℕ) (s s' : FactStore) {new : EvidenceRecord}
    → IsProven s
    → add_evidence to_int fresh now snapshot_id kind locator excerpt evidence_id created_at s
      ≡ ok (new, s')
    → IsProven s'
unfolding add_evidence
add_evidence-IsProven to_int fresh now snapshot_id kind locator excerpt evidence_id created_at s s'
      {new} proven h k g found =
    let facts : s'.facts ≡ s.facts = ground arith in
    let links : s'.links ≡ s.links = ground arith in
    let evidence : s'.evidence ≡ put s.evidence new.evidence_id new = ground arith in
    grown_IsBacked s s' k g new links evidence (proven k g (rw facts at found))
