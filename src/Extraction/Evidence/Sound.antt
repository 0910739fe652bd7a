-- ===== src/Extraction/Evidence/Sound.antt =====
-- The validation of a span agrees with its resolution, and what passes it, the fact store accepts.
use apartment_finder.Extraction.Evidence.{
  span_of, resolve_in, select_content, text_issues, resolve_within, bounded_issues,
  validate_evidence_ref, resolve_text_span, ResolveError, matches_excerpt, matches_hash, kind_of,
}
use apartment_finder.Prelude.{
  Option-cases, inl, inr, ◌≡◌, refl, ◌↔◌, String, true, Option, none, some, [], arith, eq_iff,
  string_eq,
}
use apartment_finder.Prelude.Dict.{get}
use apartment_finder.Prelude.Result.{Result, ok}
use apartment_finder.Common.Enums.{EvidenceKind, text_span, image_region}
use apartment_finder.Common.Conversion.{Conversion, converted, unreadable, overflowing}
use apartment_finder.Common.Json.{Json}
use apartment_finder.Facts.Store.{
  ParsedInt, validate_text_span, validate_image_region, validate_locator,
}
use apartment_finder.Extraction.Models.{SnapshotContent, EvidenceRef}

module _ (to_int : Json → Conversion ParsedInt) (sha256_text : String → String) where
  module _ (field_path : Option String) (ref : EvidenceRef) where
    -- A span that fits the reference.
    abbrev pub Fits : Result ResolveError String → Type 0
    Fits r =
        (span : String) × (r ≡ ok span)
        × (matches_excerpt ref.excerpt span ≡ true)
        × (matches_hash to_int sha256_text (get ref.locator "text_hash") span ≡ true)

    resolve_within-Fits :
        (content : String) (ends : Conversion (ParsedInt × ParsedInt))
        → bounded_issues to_int sha256_text field_path ref content ends ≡ ok []
        → Fits (resolve_within to_int sha256_text content ends)
    resolve_within-Fits content (converted (start, stop)) h =
        (span_of start stop content, ground arith, ground arith, ground arith)
    resolve_within-Fits content unreadable h = absurd (ground arith)
    resolve_within-Fits content overflowing h = absurd (cc)

    bounded_issues_nil :
        (content : String) (ends : Conversion (ParsedInt × ParsedInt))
        → Fits (resolve_within to_int sha256_text content ends)
        → bounded_issues to_int sha256_text field_path ref content ends ≡ ok []
    bounded_issues_nil content (converted (start, stop)) (span, r, e, h) = ground arith
    bounded_issues_nil content unreadable (span, r, e, h) = absurd (cc)
    bounded_issues_nil content overflowing (span, r, e, h) = absurd (cc)

    text_issues_iff :
        (content : Option String)
        → (text_issues to_int sha256_text field_path ref content ≡ ok [])
          ↔ Fits (resolve_in to_int sha256_text ref.locator content)
    text_issues_iff none = (λ h. absurd (ground arith), λ (span, r, e, h). absurd (cc))
    text_issues_iff (some content) = (resolve_within-Fits content _, bounded_issues_nil content _)

    text_issues_lem :
        (snapshot : SnapshotContent)
        → ref.snapshot_id ≡ snapshot.snapshot_id
        → kind_of ref.kind ≡ some text_span
        → validate_evidence_ref to_int sha256_text field_path ref snapshot
          ≡ text_issues to_int sha256_text field_path ref
              (select_content snapshot (get ref.locator "source_format"))
    unfolding validate_evidence_ref
    text_issues_lem snapshot same kind =
        rw ((eq_iff ref.snapshot_id snapshot.snapshot_id).1 same, kind) refl

  -- A text span on the right snapshot is found valid exactly if its locator resolves to a span that
  -- is the excerpt, where there is one, and has the text hash, where there is one.
  pub validate_evidence_ref-resolve_text_span :
      (field_path : Option String) (ref : EvidenceRef) (snapshot : SnapshotContent)
      → ref.snapshot_id ≡ snapshot.snapshot_id
      → kind_of ref.kind ≡ some text_span
      → (validate_evidence_ref to_int sha256_text field_path ref snapshot ≡ ok []) ↔ (
          (span : String) × (resolve_text_span to_int sha256_text snapshot ref.locator ≡ ok span)
          × (matches_excerpt ref.excerpt span ≡ true)
          × (matches_hash to_int sha256_text (get ref.locator "text_hash") span ≡ true))
  unfolding resolve_text_span
  validate_evidence_ref-resolve_text_span field_path ref snapshot same kind =
      let content = select_content snapshot (get ref.locator "source_format") in
      let issues = text_issues_lem field_path ref snapshot same kind in
      let iff = text_issues_iff field_path ref content in
      (λ valid. iff.0 (cc (issues, valid)), λ fits. rw (issues, iff.1 fits) refl)

  -- A reference with no issue has a kind, and its locator is one that the store takes.
  pub validate_locator_lem :
      (field_path : Option String) (ref : EvidenceRef) (snapshot : SnapshotContent)
      → validate_evidence_ref to_int sha256_text field_path ref snapshot ≡ ok []
      → (kind : EvidenceKind) × (kind_of ref.kind ≡ some kind)
        × (validate_locator to_int kind ref.locator ≡ ok tt)
  unfolding validate_evidence_ref validate_text_span validate_image_region
  validate_locator_lem field_path ref snapshot valid = elim (Option-cases (kind_of ref.kind)) [
    | inl unknown ↦ absurd (ground (arith, unknown))
    | inr (text_span, known) ↦ (text_span, known, ground (arith, known))
    | inr (image_region, known) ↦ (image_region, known, ground (arith, known))
  ]
