-- ===== src/Extraction/Models.antt =====
-- services/extraction/models.py. A kind of evidence is its text: `EvidenceKind` is a `str`. A
-- confidence is kept as its text.
use apartment_finder.Prelude.{ℕ, suc, zero, String, Option, List}
use apartment_finder.Prelude.Dict.{Dict}
use apartment_finder.Common.Json.{Json}

pub record ImageMeta : Type 0 where
  pub image_ref : String
  pub width : ℕ
  pub height : ℕ

pub record SnapshotContent : Type 0 where
  pub snapshot_id : String
  pub source_id : String
  pub html : Option String
  pub text : Option String
  pub markdown : Option String
  pub images : Dict String ImageMeta

pub record EvidenceRef : Type 0 where
  pub snapshot_id : String
  pub kind : String
  pub locator : Dict String Json
  pub excerpt : Option String

pub record FieldCandidate : Type 0 where
  pub field_path : String
  pub value : Json
  pub confidence : Option String
  pub evidence : List EvidenceRef
  pub extractor : String

-- `len(content)` and `content[start:end]`, by characters.
unfoldable pub text_length : String → ℕ
text_length String.[] = 0
text_length (String.◌∷◌ c s) = suc (text_length s)

unfoldable pub text_take : ℕ → String → String
text_take zero s = String.[]
text_take (suc n) String.[] = String.[]
text_take (suc n) (String.◌∷◌ c s) = String.◌∷◌ c (text_take n s)

unfoldable pub text_drop : ℕ → String → String
text_drop zero s = s
text_drop (suc n) String.[] = String.[]
text_drop (suc n) (String.◌∷◌ c s) = text_drop n s
