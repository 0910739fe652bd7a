-- ===== src/Extraction/Evidence.antt =====
-- services/common/evidence.py. `int` and `sha256_text` are parameters; the texts that are hashed are
-- ones that can be encoded as UTF-8.
pub mod Sound
use apartment_finder.Prelude.{
  ℕ, suc, ◌+◌, ◌-◌, String, Bool, true, false, not, ◌||◌, Option, none, some, List, [], ◌∷◌, ◌++◌,
  leb, ltb, if◌then◌else◌, ◌==◌, string_eq,
}
use apartment_finder.Prelude.Dict.{Dict, get}
use apartment_finder.Prelude.Result.{Result, ok, err}
use apartment_finder.Common.Enums.{EvidenceKind, text_span, image_region}
use apartment_finder.Common.Conversion.{Conversion, converted, unreadable, overflowing, both}
use apartment_finder.Common.Json.{Json, null, bool, number, text, arr, obj}
use apartment_finder.Facts.Store.{
  ParsedInt, non_negative, negative, is_negative, magnitude, int_of, is_not_positive,
}
use apartment_finder.Extraction.Models.{
  ImageMeta, SnapshotContent, EvidenceRef, text_length, text_take, text_drop,
}

pub record EvidenceIssue : Type 0 where
  pub code : String
  pub message : String
  pub severity : String
  pub field_path : Option String

-- What resolving a span raises: an EvidenceLocatorError with its message, or the OverflowError of an
-- `int`.
pub data ResolveError : Type 0 where
  locator_error : String → ResolveError
  overflow : ResolveError

-- What validating a reference raises: the TypeError of an `image_ref` that cannot be a key, or the
-- OverflowError of an `int`.
pub data ValidateError : Type 0 where
  unhashable : ValidateError
  overflow_error : ValidateError

abbrev pub Issues : Type 0
Issues = Result ValidateError (List EvidenceIssue)

-- `EvidenceKind(kind)`; `none` is the ValueError.
unfoldable pub kind_of : String → Option EvidenceKind
kind_of kind =
    if kind == "text_span"
    then some text_span
    else if kind == "image_region"
    then some image_region
    else none

abbrev pub content_in : SnapshotContent → String → Option String
content_in snapshot format =
    if format == "text"
    then snapshot.text
    else if format == "html"
    then snapshot.html
    else if format == "markdown"
    then snapshot.markdown
    else none

-- `_select_content`, on `locator.get("source_format")`.
unfoldable pub select_content : SnapshotContent → Option Json → Option String
select_content snapshot none = snapshot.text
select_content snapshot (some null) = snapshot.text
select_content snapshot (some (text format)) = content_in snapshot format
select_content snapshot (some _) = none

-- `start < 0 or end < 0 or start >= end or end > len(content)`
unfoldable pub is_outside : ParsedInt → ParsedInt → String → Bool
is_outside start stop content =
    is_negative start
    || (is_negative stop
        || (leb (magnitude stop) (magnitude start) || ltb (text_length content) (magnitude stop)))

-- `content[start:end]`
unfoldable pub span_of : ParsedInt → ParsedInt → String → String
span_of start stop content =
    text_take (magnitude stop - magnitude start) (text_drop (magnitude start) content)

-- `at + size > limit` for an `at` that is not negative.
abbrev pub exceeds : ParsedInt → ParsedInt → ℕ → Bool
exceeds at (non_negative n) limit = ltb limit (magnitude at + n)
exceeds at (negative n) limit = ltb (limit + suc n) (magnitude at)

abbrev pub Locator : Type 0
Locator = Dict String Json

-- `None`, or the given text.
abbrev pub matches_excerpt : Option String → String → Bool
matches_excerpt none span = true
matches_excerpt (some excerpt) span = excerpt == span

module _ (to_int : Json → Conversion ParsedInt) (sha256_text : String → String) where
  abbrev pub matches_hash : Option Json → String → Bool
  matches_hash none span = true
  matches_hash (some null) span = true
  matches_hash (some (text h)) span = sha256_text span == h
  matches_hash (some _) span = false

  -- The two ends of a span, read in this order.
  abbrev pub ends_of : Locator → Conversion (ParsedInt × ParsedInt)
  ends_of locator =
      both (int_of to_int (get locator "start_char")) (int_of to_int (get locator "end_char"))

  abbrev pub resolve_within :
      String → Conversion (ParsedInt × ParsedInt) → Result ResolveError String
  resolve_within content (converted (start, stop)) =
      if is_outside start stop content
      then err (locator_error "text_span locator out of bounds")
      else ok (span_of start stop content)
  resolve_within content unreadable =
      err (locator_error "text_span requires start_char and end_char")
  resolve_within content overflowing = err overflow

  abbrev pub resolve_in : Locator → Option String → Result ResolveError String
  resolve_in locator none = err (locator_error "content unavailable for text_span")
  resolve_in locator (some content) = resolve_within content (ends_of locator)

  unfoldable pub resolve_text_span : SnapshotContent → Locator → Result ResolveError String
  unfolding select_content is_outside
  resolve_text_span snapshot locator =
      resolve_in locator (select_content snapshot (get locator "source_format"))

  module _ (field_path : Option String) where
    abbrev pub issue : String → String → EvidenceIssue
    issue code message = record {
      code = code;
      message = message;
      severity = "error";
      field_path = field_path;
    }

    abbrev pub issue_if : Bool → String → String → List EvidenceIssue
    issue_if true code message = issue code message ∷ []
    issue_if false code message = []

    abbrev pub span_issues : EvidenceRef → String → List EvidenceIssue
    span_issues ref span =
        issue_if (not (matches_excerpt ref.excerpt span)) "excerpt_mismatch"
          "excerpt does not match resolved span"
        ++ issue_if (not (matches_hash (get ref.locator "text_hash") span)) "text_hash_mismatch"
            "text_hash does not match resolved span"

    abbrev pub bounded_issues : EvidenceRef → String → Conversion (ParsedInt × ParsedInt) → Issues
    bounded_issues ref content (converted (start, stop)) =
        if is_outside start stop content
        then ok (issue "span_out_of_bounds" "text_span locator out of bounds" ∷ [])
        else ok (span_issues ref (span_of start stop content))
    bounded_issues ref content unreadable =
        ok (issue "invalid_locator" "text_span requires start_char and end_char" ∷ [])
    bounded_issues ref content overflowing = err overflow_error

    abbrev pub text_issues : EvidenceRef → Option String → Issues
    text_issues ref none =
        ok (issue "content_missing" "text_span source_format not available on snapshot" ∷ [])
    text_issues ref (some content) = bounded_issues ref content (ends_of ref.locator)

    abbrev pub region_issues :
        ImageMeta → Conversion ((ParsedInt × ParsedInt) × (ParsedInt × ParsedInt)) → Issues
    region_issues image (converted ((x, y), (width, height))) = ok (
        issue_if (is_not_positive to_int width || is_not_positive to_int height)
          "invalid_dimensions" "image_region width and height must be positive"
        ++ issue_if
            (is_negative x
              || (is_negative y || (exceeds x width image.width || exceeds y height image.height)))
            "region_out_of_bounds" "image_region outside image bounds")
    region_issues image unreadable =
        ok (issue "invalid_locator" "image_region requires x, y, width, height" ∷ [])
    region_issues image overflowing = err overflow_error

    -- The four numbers, read in this order.
    abbrev pub region_of : Locator → Conversion ((ParsedInt × ParsedInt) × (ParsedInt × ParsedInt))
    region_of locator =
        both (both (int_of to_int (get locator "x")) (int_of to_int (get locator "y")))
          (both (int_of to_int (get locator "width")) (int_of to_int (get locator "height")))

    abbrev pub image_issues : EvidenceRef → Option ImageMeta → Issues
    image_issues ref none = ok (issue "image_missing" "image_ref not found on snapshot" ∷ [])
    image_issues ref (some image) = region_issues image (region_of ref.locator)

    -- `image_ref not in images`: a list or a dictionary cannot be a key.
    abbrev pub referenced_issues : EvidenceRef → SnapshotContent → Option Json → Issues
    referenced_issues ref snapshot (some (text image_ref)) =
        image_issues ref (get snapshot.images image_ref)
    referenced_issues ref snapshot (some (arr items)) = err unhashable
    referenced_issues ref snapshot (some (obj fields)) = err unhashable
    referenced_issues ref snapshot _ = image_issues ref none

    abbrev pub kind_issues : EvidenceRef → SnapshotContent → Option EvidenceKind → Issues
    kind_issues ref snapshot none = ok (issue "unsupported_kind" "unsupported evidence kind" ∷ [])
    kind_issues ref snapshot (some text_span) =
        text_issues ref (select_content snapshot (get ref.locator "source_format"))
    kind_issues ref snapshot (some image_region) =
        referenced_issues ref snapshot (get ref.locator "image_ref")

    unfoldable pub validate_evidence_ref : EvidenceRef → SnapshotContent → Issues
    unfolding kind_of select_content is_outside
    validate_evidence_ref ref snapshot =
        if ref.snapshot_id == snapshot.snapshot_id
        then kind_issues ref snapshot (kind_of ref.kind)
        else ok (issue "snapshot_id_mismatch" "evidence snapshot_id does not match snapshot" ∷ [])
