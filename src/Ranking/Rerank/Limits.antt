-- ===== src/Ranking/Rerank/Limits.antt =====
-- What is sent on of a listing is limited.
use apartment_finder.Common.Conversion.{answered}
use apartment_finder.Prelude.{
  suc, ℕ, ◌≤◌, ◌≡◌, refl, String, Bool, true, false, not, Option, none, some, List, [], ◌∷◌, keep,
  keep-All, All-mono, take-All, length-take, length, map, All, arith, Option-cases, Bool-cases, inl,
  inr, string_eq,
}
use apartment_finder.Prelude.Dict.{Dict, get, values}
use apartment_finder.Prelude.Order.{Order, sort_by, text_order}
use apartment_finder.Common.Text.{is_in}
use apartment_finder.Retrieval.Models.{Value}
use apartment_finder.Ranking.Models.{StructuredField, RankingListing, RankingConfig}
use apartment_finder.Ranking.Values.{Python, resolve_structured_field}
use apartment_finder.Ranking.Rerank.{
  RerankField, RerankListing, rerank_fields, unless_long, named_field, allowed_fields,
  build_rerank_payload, is_long, name_key, with_listing,
}

module _ {F D : Type 0} ⦃o : Order F⦄ ⦃d : Order D⦄ (py : Python F D)
    (config : RankingConfig F) where
  -- A field that may be sent on.
  abbrev pub IsLimited : RerankField F D → Type 0
  IsLimited field =
      (is_in field.field config.blocked_rerank_fields ≡ false)
      × (length field.evidence ≤ config.max_evidence_per_field)
      × (is_long py config field.value ≡ false)

  abbrev pub IsLimitedListing : RerankListing F D → Type 0
  IsLimitedListing listing =
      (length listing.fields ≤ config.max_fields_for_rerank) × All IsLimited listing.fields

  unless_long_lem :
      (name : String) (field : StructuredField F D) (resolved : Value D × F)
      (rest : List (RerankField F D)) (n : ℕ)
      → is_in name config.blocked_rerank_fields ≡ false
      → length rest ≤ n
      → All IsLimited rest
      → (length (unless_long py config name field resolved rest) ≤ suc n)
        × All IsLimited (unless_long py config name field resolved rest)
  unless_long_lem name field (value, confidence) rest n free short limited =
      elim (Bool-cases (is_long py config value)) [
        | inl long ↦ rw long (omega (arith, short), limited)
        | inr fits ↦ rw fits (omega (arith, short), ((free, length-take _ _, fits), limited))
      ]

  named_field_lem :
      (name : String) (found : Option (StructuredField F D))
      (others : Option (List (RerankField F D))) (out : List (RerankField F D))
      → named_field py config name found others ≡ some out
      → (field : StructuredField F D) × (resolved : Value D × F) × (rest : List (RerankField F D))
        × (others ≡ some rest)
        × (out ≡ unless_long py config name field resolved rest)
  named_field_lem name none others out h = absurd (cc)
  named_field_lem name (some field) others out h =
      elim (Option-cases (answered (resolve_structured_field py field))) [
        | inl raised ↦ absurd (ground (arith, raised, h))
        | inr (resolved, run) ↦ elim (Option-cases others) [
          | inl raised ↦ absurd (ground (arith, raised, run, h))
          | inr (rest, there) ↦ (field, resolved, rest, there, ground (arith, run, there, h))
        ]
      ]

  with_listing_lem :
      (listing : RankingListing F D) (found : Option (List (RerankField F D)))
      (others : Option (List (RerankListing F D))) (out : List (RerankListing F D))
      → with_listing py config listing found others ≡ some out
      → (new : RerankListing F D) × (fields : List (RerankField F D)) × (rest : List
          (RerankListing F D))
        × (found ≡ some fields)
        × (others ≡ some rest)
        × (new.fields ≡ fields)
        × (out ≡ new ∷ rest)
  with_listing_lem listing none others out h = absurd (cc)
  with_listing_lem listing (some fields) none out h = absurd (cc)
  with_listing_lem listing (some fields) (some rest) out h = (
    record { listing_id = listing.listing_id; fields = fields; commutes = values listing.commutes },
    fields,
    rest,
    refl,
    refl,
    refl,
    ground (arith, h),
  )

  rerank_fields_lem :
      (fields : Dict String (StructuredField F D)) (names : List String)
      (out : List (RerankField F D))
      → All (λ name. is_in name config.blocked_rerank_fields ≡ false) names
      → rerank_fields py config fields names ≡ some out
      → (length out ≤ length names) × All IsLimited out
  unfolding rerank_fields
  rerank_fields_lem fields [] out free h =
      let same : out ≡ [] = ground arith in rw same (omega arith, tt)
  rerank_fields_lem fields (name ∷ names) out free h =
      let (field, resolved, rest, run, same) =
        named_field_lem name (get fields name) (rerank_fields py config fields names) out h in
      let (short, limited) = rerank_fields_lem fields names rest free.1 run in
      rw same (unless_long_lem name field resolved rest (length names) free.0 short limited)

  allowed_fields_lem :
      (listing : RankingListing F D)
      → (length (allowed_fields py config listing) ≤ config.max_fields_for_rerank)
        × All
            (λ name. is_in name config.blocked_rerank_fields ≡ false)
            (allowed_fields py config listing)
  unfolding allowed_fields
  allowed_fields_lem listing =
      let free : String → Bool = λ name. not (is_in name config.blocked_rerank_fields) in
      let names = sort_by (name_key py config) (map (λ kv. kv.0) listing.fields) in
      (
        length-take config.max_fields_for_rerank (keep free names),
        take-All (λ name. is_in name config.blocked_rerank_fields ≡ false)
            config.max_fields_for_rerank (keep free names)
            (All-mono (λ name. free name ≡ true)
              (λ name. is_in name config.blocked_rerank_fields ≡ false) (keep free names)
              (λ name h. ground (arith, h)) (keep-All free names)),
      )

  -- However many fields a listing has, what is sent on of it for reranking has at most
  -- `max_fields_for_rerank` fields, none of them blocked, each with at most
  -- `max_evidence_per_field` references and none with a text longer than
  -- `max_text_length_for_rerank`.
  pub build_rerank_payload-IsLimitedListing :
      (listings : List (RankingListing F D)) (payload : List (RerankListing F D))
      → build_rerank_payload py config listings ≡ some payload
      → All IsLimitedListing payload
  unfolding build_rerank_payload
  build_rerank_payload-IsLimitedListing [] payload h =
      let same : payload ≡ [] = ground arith in rw same tt
  build_rerank_payload-IsLimitedListing (listing ∷ listings) payload h =
      let (new, fields, rest, run, others, same_fields, same) =
        with_listing_lem listing
          (rerank_fields py config listing.fields (allowed_fields py config listing))
          (build_rerank_payload py config listings) payload h in
      let (few, free) = allowed_fields_lem listing in
      let (short, limited) =
        rerank_fields_lem listing.fields (allowed_fields py config listing) fields free run in
      rw (same, same_fields)
        (
          (omega (arith, short, few), limited),
          build_rerank_payload-IsLimitedListing listings rest others,
        )
