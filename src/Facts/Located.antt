-- ===== src/Facts/Located.antt =====
-- What `add_evidence` asks of a locator.
use apartment_finder.Facts.Store.{
  is_not_positive, or_conversion, FactError, evidence_validation, ParsedInt, non_negative, negative,
  EvidenceRecord, FactStore, int_of, check_span, validate_text_span, validate_image_region,
  validate_locator, add_evidence,
}
use apartment_finder.Prelude.{
  ℕ, zero, suc, ◌<◌, ◌≡◌, refl, String, Option, some, false, is_none, string_eq, arith, Bool-cases,
  inl, inr, eq_refl, sym, ◌==◌, ◌||◌,
}
use apartment_finder.Prelude.Dict.{Dict, get, put, get-put}
use apartment_finder.Prelude.Result.{Result, ok, bind-ok, raise_if, ◌>>=◌}
use apartment_finder.Common.Enums.{EvidenceKind, text_span, image_region}
use apartment_finder.Common.Conversion.{Conversion, converted, unreadable, overflowing, both}
use apartment_finder.Common.Json.{Json}

-- It converts to a positive number.
abbrev pub IsPositive : Conversion ParsedInt → Type 0
IsPositive n = (m : ℕ) × (n ≡ converted (non_negative (suc m)))

-- Two numbers from 0, the first one below the second one.
abbrev pub IsSpan : Conversion ParsedInt → Conversion ParsedInt → Type 0
IsSpan start stop =
    (m : ℕ) × (n : ℕ) × (start ≡ converted (non_negative m))
    × (stop ≡ converted (non_negative n))
    × (m < n)

span_lem :
    (to_int : Json → Conversion ParsedInt) (start stop : Conversion ParsedInt)
    → check_span to_int (both start stop) ≡ ok tt
    → IsSpan start stop
span_lem to_int (converted (non_negative m)) (converted (non_negative n)) h =
    (m, n, refl, refl, ground arith)
span_lem to_int (converted (negative m)) (converted n) h = absurd (ground arith)
span_lem to_int (converted (non_negative m)) (converted (negative n)) h = absurd (ground arith)
span_lem to_int (converted m) unreadable h = absurd (ground arith)
span_lem to_int (converted m) overflowing h = absurd (ground arith)
span_lem to_int unreadable stop h = absurd (ground arith)
span_lem to_int overflowing stop h = absurd (ground arith)

module _ (to_int : Json → Conversion ParsedInt) where
  positive_lem :
      (n : Conversion ParsedInt) (m : ParsedInt)
      → or_conversion to_int n ≡ ok m
      → is_not_positive to_int m ≡ false
      → IsPositive n
  positive_lem (converted (non_negative zero)) m h p = absurd (ground arith)
  positive_lem (converted (non_negative (suc k))) m h p = (k, refl)
  positive_lem (converted (negative k)) m h p = absurd (ground arith)
  positive_lem unreadable m h p = absurd (cc)
  positive_lem overflowing m h p = absurd (cc)

  -- What a locator of each kind has.
  abbrev pub IsLocator : EvidenceKind → Dict String Json → Type 0
  IsLocator text_span locator =
      IsSpan (int_of to_int (get locator "start_char")) (int_of to_int (get locator "end_char"))
  IsLocator image_region locator =
      (is_none (get locator "x") ≡ false)
      × (is_none (get locator "y") ≡ false)
      × IsPositive (int_of to_int (get locator "width"))
      × IsPositive (int_of to_int (get locator "height"))

  -- The tests of the sizes, on what the conversions give.
  abbrev sized : Conversion ParsedInt → Conversion ParsedInt → Result FactError (Unit {0})
  sized w h = do
    width ← or_conversion to_int w
    height ← or_conversion to_int h
    raise_if (is_not_positive to_int width || is_not_positive to_int height)
        (evidence_validation "image_region requires positive width and height")

  sized_lem : (w h : Conversion ParsedInt) → sized w h ≡ ok tt → IsPositive w × IsPositive h
  sized_lem w h run =
      let (width, wide, rest) = bind-ok run in
      let (height, high, last) = bind-ok rest in
      (
        positive_lem w width wide (ground (arith, last)),
        positive_lem h height high (ground (arith, last)),
      )

  validate_locator-IsLocator :
      (kind : EvidenceKind) (locator : Dict String Json)
      → validate_locator to_int kind locator ≡ ok tt
      → IsLocator kind locator
  unfolding validate_text_span validate_image_region
  validate_locator-IsLocator text_span locator h = span_lem to_int _ _ h
  validate_locator-IsLocator image_region locator h =
      let sizes : sized (int_of to_int (get locator "width")) (int_of to_int (get locator "height"))
          ≡ ok tt =
        ground arith in
      (ground arith, ground arith, (sized_lem _ _ sizes).0, (sized_lem _ _ sizes).1)

  -- Every evidence that is held has a locator of its kind.
  abbrev pub IsLocated : FactStore → Type 0
  IsLocated s =
      (k : String) (e : EvidenceRecord) → get s.evidence k ≡ some e → IsLocator e.kind e.locator

  -- Evidence is added only with a locator of its kind: a text span has two numbers from 0 that
  -- rise, an image region has a place and a positive width and height. So in a store where all
  -- evidence is like that, all evidence is still like that after an `add_evidence` that returns, and
  -- the new evidence is found under its id.
  pub add_evidence-IsLocated :
      (fresh : String) (now : ℕ) (snapshot_id : String) (kind : EvidenceKind)
      (locator : Dict String Json) (excerpt evidence_id : Option String) (created_at : Option ℕ)
      (s s' : FactStore) {new : EvidenceRecord}
      → IsLocated s
      → add_evidence to_int fresh now snapshot_id kind locator excerpt evidence_id created_at s
        ≡ ok (new, s')
      → IsLocated s' × (get s'.evidence new.evidence_id ≡ some new)
  unfolding add_evidence
  add_evidence-IsLocated fresh now snapshot_id kind locator excerpt evidence_id created_at s s'
        {new} located h =
      let valid : validate_locator to_int kind locator ≡ ok tt = ground arith in
      let evidence : s'.evidence ≡ put s.evidence new.evidence_id new = ground arith in
      let same_kind : new.kind ≡ kind = ground arith in
      let same_locator : new.locator ≡ locator = ground arith in
      (
        λ k e found. elim (Bool-cases (new.evidence_id == k)) [
          | inl same ↦
              let is : new ≡ e =
                ground (arith, same, found, evidence, get-put s.evidence new.evidence_id k new) in
              rw (sym is, same_kind, same_locator) (validate_locator-IsLocator kind locator valid)
          | inr other ↦
              located k e
                (ground (arith, other, found, evidence, get-put s.evidence new.evidence_id k new))
        ],
        ground (
          arith,
          evidence,
          get-put s.evidence new.evidence_id new.evidence_id new,
          eq_refl new.evidence_id,
        ),
      )
