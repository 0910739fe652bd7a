-- ===== src/Ranking/Diversity/Greedy.antt =====
-- The diversity caps against a definition that counts what it has kept.
use apartment_finder.Prelude.{
  eq_iff, ℕ, ◌+◌, ◌≡◌, refl, String, Bool, true, false, not, ◌||◌, Option, none, some, List, [],
  ◌∷◌, ◌++◌, leb, if◌then◌else◌, string_eq, count_if, keep, keep-append, length-append, arith, ◌==◌,
  Option-cases, Bool-cases, inl, inr, ◌∙◌, ap, sym,
}
use apartment_finder.Prelude.Dict.{Dict, get, put, get-put}
use apartment_finder.Retrieval.Models.{ListingDocument}
use apartment_finder.Ranking.Models.{RankedListing, DiversityCaps}
use apartment_finder.Ranking.Diversity.{
  Counts, count_of, is_capped, with_defaults, with_one_more, keep_diverse, apply_diversity_caps,
}

-- What is counted of a listing.
pub data Dimension : Type 0 where
  building neighborhood source : Dimension

abbrev pub counts_of : Dimension → Counts → Dict String ℕ
counts_of building c = c.building_counts
counts_of neighborhood c = c.neighborhood_counts
counts_of source c = c.source_counts

abbrev pub cap_of : Dimension → DiversityCaps → ℕ
cap_of building caps = caps.per_building
cap_of neighborhood caps = caps.per_neighborhood
cap_of source caps = caps.per_source

count_of-put_same :
    (d : Dict String ℕ) (k j : String) → count_of (put d k (count_of d k)) j ≡ count_of d j
count_of-put_same d k j = elim (Bool-cases (k == j)) [
  | inl same ↦
      let e : k ≡ j = (eq_iff k j).0 same in rw (get-put d k j (count_of d k), same, e) refl
  | inr other ↦ rw (get-put d k j (count_of d k), other) refl
]

count_of-put_more :
    (d : Dict String ℕ) (k j : String)
    → count_of (put d k (count_of d k + 1)) j ≡ (if k == j then 1 else 0) + count_of d j
count_of-put_more d k j = elim (Bool-cases (k == j)) [
  | inl same ↦
      let e : k ≡ j = (eq_iff k j).0 same in
      rw (get-put d k j (count_of d k + 1), same, e) (omega arith)
  | inr other ↦ rw (get-put d k j (count_of d k + 1), other) (omega arith)
]

module _ {F D : Type 0} (lookup : Dict String (ListingDocument F D)) (caps : DiversityCaps) where
  abbrev pub value_in : Dimension → ListingDocument F D → String
  value_in building listing = listing.building_id
  value_in neighborhood listing = listing.neighborhood
  value_in source listing = listing.source_id

  abbrev pub has_value : Dimension → String → Option (ListingDocument F D) → Bool
  has_value dimension k none = false
  has_value dimension k (some listing) = value_in dimension listing == k

  -- How many of the items are of listings with that value.
  abbrev pub kept_with : Dimension → String → List (RankedListing F) → ℕ
  kept_with dimension k = count_if (λ item. has_value dimension k (get lookup item.listing_id))

  abbrev pub is_full : Dimension → ListingDocument F D → List (RankedListing F) → Bool
  is_full dimension listing kept =
      leb (cap_of dimension caps) (kept_with dimension (value_in dimension listing) kept)

  abbrev pub has_room : Option (ListingDocument F D) → List (RankedListing F) → Bool
  has_room none kept = true
  has_room (some listing) kept = not (
      is_full building listing kept
      || (is_full neighborhood listing kept || is_full source listing kept))

  -- Each item is kept if what has been kept leaves room for it.
  unfoldable pub greedy : List (RankedListing F) → List (RankedListing F) → List (RankedListing F)
  greedy kept [] = []
  greedy kept (item ∷ scored) =
      let with_item = greedy (kept ++ item ∷ []) scored in
      let without = greedy kept scored in
      if has_room (get lookup item.listing_id) kept then item ∷ with_item else without

  -- The dictionaries count what is kept.
  abbrev pub IsCounted : Counts → List (RankedListing F) → Type 0
  IsCounted c kept =
      (dimension : Dimension) (k : String)
      → count_of (counts_of dimension c) k ≡ kept_with dimension k kept

  defaults_count :
      (listing : ListingDocument F D) (c : Counts) (dimension : Dimension) (k : String)
      → count_of (counts_of dimension (with_defaults lookup caps listing c)) k
        ≡ count_of (counts_of dimension c) k
  defaults_count listing c building k = count_of-put_same c.building_counts listing.building_id k
  defaults_count listing c neighborhood k =
      count_of-put_same c.neighborhood_counts listing.neighborhood k
  defaults_count listing c source k = count_of-put_same c.source_counts listing.source_id k

  one_more_count :
      (listing : ListingDocument F D) (c : Counts) (dimension : Dimension) (k : String)
      → count_of (counts_of dimension (with_one_more lookup caps listing c)) k
        ≡ (if value_in dimension listing == k then 1 else 0) + count_of (counts_of dimension c) k
  one_more_count listing c building k = count_of-put_more c.building_counts listing.building_id k
  one_more_count listing c neighborhood k =
      count_of-put_more c.neighborhood_counts listing.neighborhood k
  one_more_count listing c source k = count_of-put_more c.source_counts listing.source_id k

  pub kept_with-append :
      (dimension : Dimension) (k : String) (kept : List (RankedListing F)) (item : RankedListing F)
      → kept_with dimension k (kept ++ item ∷ [])
        ≡ (if has_value dimension k (get lookup item.listing_id) then 1 else 0)
          + kept_with dimension k kept
  unfolding keep
  kept_with-append dimension k kept item =
      let has : RankedListing F → Bool =
        λ item. has_value dimension k (get lookup item.listing_id) in
      ground (
        arith,
        keep-append has kept (item ∷ []),
        length-append (keep has kept) (keep has (item ∷ [])),
      )

  missing_lem :
      (dimension : Dimension) (k : String) (kept : List (RankedListing F)) (item : RankedListing F)
      → get lookup item.listing_id ≡ none
      → kept_with dimension k kept ≡ kept_with dimension k (kept ++ item ∷ [])
  missing_lem dimension k kept item missing =
      let appended = rw missing at (kept_with-append dimension k kept item) in
      omega (arith, appended)

  -- The test on the dictionaries is the test on what is kept.
  is_capped_lem :
      (listing : ListingDocument F D) (c : Counts) (kept : List (RankedListing F))
      → IsCounted c kept
      → is_capped lookup caps listing (with_defaults lookup caps listing c) ≡ (
          is_full building listing kept
          || (is_full neighborhood listing kept || is_full source listing kept))
  is_capped_lem listing c kept counted =
      let at : (dimension : Dimension) (k : String)
          → count_of (counts_of dimension (with_defaults lookup caps listing c)) k
            ≡ kept_with dimension k kept =
        λ dimension k. defaults_count listing c dimension k ∙ counted dimension k in
      rw
        (
          at building listing.building_id,
          at neighborhood listing.neighborhood,
          at source listing.source_id,
        )
        refl

  placed_lem :
      (listing : ListingDocument F D) (c : Counts) (kept : List (RankedListing F))
      (item : RankedListing F)
      → IsCounted c kept
      → get lookup item.listing_id ≡ some listing
      → IsCounted
          (with_one_more lookup caps listing (with_defaults lookup caps listing c))
          (kept ++ item ∷ [])
  placed_lem listing c kept item counted found dimension k =
      let more = one_more_count listing (with_defaults lookup caps listing c) dimension k in
      let same = defaults_count listing c dimension k ∙ counted dimension k in
      let appended = rw found at (kept_with-append dimension k kept item) in
      more ∙ ap (λ n. (if value_in dimension listing == k then 1 else 0) + n) same ∙ sym appended

  keep_diverse-greedy :
      (scored kept : List (RankedListing F)) (c : Counts)
      → IsCounted c kept
      → keep_diverse lookup caps scored c ≡ greedy kept scored
  unfolding keep_diverse greedy
  keep_diverse-greedy [] kept c counted = refl
  keep_diverse-greedy (item ∷ scored) kept c counted =
      elim (Option-cases (get lookup item.listing_id)) [
        | inl missing ↦
            let same : IsCounted c (kept ++ item ∷ []) =
              λ dimension k. counted dimension k ∙ missing_lem dimension k kept item missing in
            rw (missing, keep_diverse-greedy scored (kept ++ item ∷ []) c same) refl
        | inr (listing, found) ↦
            let test = is_capped_lem listing c kept counted in
            let skip =
              keep_diverse-greedy scored kept (with_defaults lookup caps listing c)
                (λ dimension k. defaults_count listing c dimension k ∙ counted dimension k) in
            let take =
              keep_diverse-greedy scored (kept ++ item ∷ [])
                (with_one_more lookup caps listing (with_defaults lookup caps listing c))
                (placed_lem listing c kept item counted found) in
            elim (Bool-cases
              (is_capped lookup caps listing (with_defaults lookup caps listing c))) [
                | inl full ↦ rw (found, full, sym test ∙ full, skip) refl
                | inr room ↦ rw (found, room, sym test ∙ room, take) refl
              ]
      ]

  no_count :
      IsCounted (record { building_counts = []; neighborhood_counts = []; source_counts = [] }) []
  unfolding get keep
  no_count building k = refl
  no_count neighborhood k = refl
  no_count source k = refl

  -- The listings that the diversity caps leave are those that are chosen one after the other, each if
  -- fewer than the cap of the listings chosen so far share its building, its neighborhood and its
  -- source, or if it is no listing of the repository.
  pub apply_diversity_caps-greedy :
      (scored : List (RankedListing F)) → apply_diversity_caps lookup caps scored ≡ greedy [] scored
  unfolding apply_diversity_caps get keep
  apply_diversity_caps-greedy scored = keep_diverse-greedy scored [] _ no_count
