-- ===== src/Ranking/Rank/Results.antt =====
-- What `rank` returns.
use apartment_finder.Prelude.{
  sym, ℕ, ◌+◌, ◌≡◌, refl, String, true, false, Option, none, some, List, [], ◌∷◌, ◌++◌, take-All,
  All, All-append, or_else, string_eq, arith, Bool-cases, Option-cases, inl, inr, ap, ◌∙◌,
}
use apartment_finder.Prelude.Dict.{Dict, get}
use apartment_finder.Prelude.Order.{Order, desc_order, pair_order, text_order, sort_by-All}
use apartment_finder.Retrieval.Models.{ListingDocument, RetrievalCandidate}
use apartment_finder.Retrieval.Repository.{Listings}
use apartment_finder.Retrieval.Service.{RetrievalConfig, retrieve}
use apartment_finder.Ranking.Models.{RankingListing, RankedListing, RankingConfig, DiversityCaps}
use apartment_finder.SearchSpecs.Models.{SearchSpec}
use apartment_finder.Ranking.Values.{Python}
use apartment_finder.Ranking.Hard.{evaluate_listing}
use apartment_finder.Ranking.Hard.Sound.{IsAdmissible, evaluate_listing-IsAdmissible}
use apartment_finder.Ranking.Scores.{score, score_fields}
use apartment_finder.Ranking.Rerank.{build_rerank_payload}
use apartment_finder.Ranking.Diversity.{Counts, place, keep_diverse, apply_diversity_caps}
use apartment_finder.Ranking.Rank.{
  RankingResult, Filtered, to_ranking_listing, hydrated, hydrate_listings, numbered, filter_one,
  apply_hard_filters, score_all, final_key, ranked, rank_filtered, rank, build_query,
}

module _ {F D : Type 0} (lookup : Dict String (ListingDocument F D)) (caps : DiversityCaps) where
  pub keep_diverse-All :
      (P : RankedListing F → Type 0) (scored : List (RankedListing F)) (c : Counts)
      → All P scored
      → All P (keep_diverse lookup caps scored c)
  unfolding keep_diverse
  keep_diverse-All P [] c h = tt
  keep_diverse-All P (item ∷ scored) c h =
      let placed = place lookup caps (get lookup item.listing_id) c in
      let rest = keep_diverse-All P scored placed.1 h.1 in
      elim (Bool-cases placed.0) [ inl kept ↦ rw kept (h.0, rest) | inr dropped ↦ rw dropped rest ]

pub numbered-All :
    {F : Type 0} (P : RankedListing F → Type 0)
    → ((item : RankedListing F) (index : ℕ) → P item → P (record item { rank = index }))
    → (index : ℕ) (results : List (RankedListing F)) → All P results
    → All P (numbered index results)
unfolding numbered
numbered-All P same index [] h = tt
numbered-All P same index (item ∷ results) h =
    (same item index h.0, numbered-All P same (index + 1) results h.1)

module _ {F D : Type 0} ⦃o : Order F⦄ ⦃d : Order D⦄ (py : Python F D)
    (tokenize words : String → List String) (retrieval : RetrievalConfig F)
    (config : RankingConfig F) (listings : Listings F D) (search_spec : SearchSpec F D) where
  -- The listing is made of a document of the repository.
  abbrev pub IsHydrated : RankingListing F D → Type 0
  IsHydrated listing =
      (k : String) × (doc : ListingDocument F D) × (get listings k ≡ some doc)
      × (listing ≡ to_ranking_listing doc)

  abbrev pub IsKept : RankingListing F D → Type 0
  IsKept listing =
      IsHydrated listing × IsAdmissible py config.hard_confidence_threshold listing search_spec.hard

  -- A listing of that id has been kept.
  abbrev pub IsKeptId : String → Type 0
  IsKeptId listing_id =
      (listing : RankingListing F D) × (listing.listing_id ≡ listing_id) × IsKept listing

  hydrated-All :
      (k : String) (found : Option (ListingDocument F D))
      → get listings k ≡ found
      → All IsHydrated (hydrated found)
  hydrated-All k none h = tt
  hydrated-All k (some doc) h = ((k, doc, h, refl), tt)

  hydrate_listings-All :
      (candidates : List (RetrievalCandidate F))
      → All IsHydrated (hydrate_listings listings candidates)
  unfolding hydrate_listings
  hydrate_listings-All [] = tt
  hydrate_listings-All (candidate ∷ candidates) =
      All-append IsHydrated (hydrated (get listings candidate.listing_id)) _
        (hydrated-All candidate.listing_id _ refl) (hydrate_listings-All candidates)

  filter_one_lem :
      (listing : RankingListing F D) (filtered out : Filtered py tokenize words retrieval config)
      → filter_one py tokenize words retrieval config listing
          (evaluate_listing py config.hard_confidence_threshold listing search_spec)
          filtered
        ≡ some out
      → IsHydrated listing
      → All IsKept filtered.0
      → All IsKept out.0
  filter_one_lem listing (kept, flags) out h made good =
      elim (Option-cases
        (evaluate_listing py config.hard_confidence_threshold listing search_spec)) [
          | inl raised ↦ absurd (ground (arith, raised, h))
          | inr ((true, why), run) ↦
              let same : out.0 ≡ kept ++ listing ∷ [] = ground (arith, run, h) in
              rw same (
                All-append IsKept kept (listing ∷ []) good (
                  (
                    made,
                    evaluate_listing-IsAdmissible py config.hard_confidence_threshold listing
                        search_spec why run,
                  ),
                  tt,
                ))
          | inr ((false, why), run) ↦
              let same : out.0 ≡ kept = ground (arith, run, h) in rw same good
        ]

  next_filters :
      (listing : RankingListing F D) (made : List (RankingListing F D))
      (filtered : Filtered py tokenize words retrieval config)
      → apply_hard_filters py tokenize words retrieval config search_spec
          (listing ∷ made)
          (some filtered)
        ≡ apply_hard_filters py tokenize words retrieval config search_spec made (
            filter_one py tokenize words retrieval config listing
              (evaluate_listing py config.hard_confidence_threshold listing search_spec)
              filtered)
  unfolding apply_hard_filters
  next_filters listing made filtered = refl

  no_filters :
      (made : List (RankingListing F D))
      → apply_hard_filters py tokenize words retrieval config search_spec made none ≡ none
  unfolding apply_hard_filters
  no_filters made = refl

  apply_hard_filters_lem :
      (made : List (RankingListing F D))
      (filtered out : Filtered py tokenize words retrieval config)
      → apply_hard_filters py tokenize words retrieval config search_spec made (some filtered)
        ≡ some out
      → All IsHydrated made
      → All IsKept filtered.0
      → All IsKept out.0
  unfolding apply_hard_filters
  apply_hard_filters_lem [] filtered out h from good =
      let same : out ≡ filtered = ground arith in rw same good
  apply_hard_filters_lem (listing ∷ made) filtered out h from good =
      elim (Option-cases (
        filter_one py tokenize words retrieval config listing
          (evaluate_listing py config.hard_confidence_threshold listing search_spec) filtered)) [
            | inl raised ↦
                absurd
                  (ground (arith, next_filters listing made filtered, raised, no_filters made, h))
            | inr (next, run) ↦
                apply_hard_filters_lem made next out
                  (rw run at (sym (next_filters listing made filtered) ∙ h)) from.1
                  (filter_one_lem listing filtered next run from.0 good)
          ]

  score_id :
      (listing : RankingListing F D) (flags : List String) (item : RankedListing F)
      → score py listing search_spec flags ≡ some item
      → item.listing_id ≡ listing.listing_id
  unfolding score
  score_id listing flags item h = elim (Option-cases (score_fields py listing search_spec)) [
    | inl raised ↦ absurd (ground (arith, raised, h))
    | inr (t, run) ↦ sym (ap (λ x. (or_else x item).listing_id) (rw run at h))
  ]

  score_all_lem :
      (flags : Dict String (List String)) (kept : List (RankingListing F D))
      (scored : List (RankedListing F))
      → score_all py tokenize words retrieval config search_spec flags kept ≡ some scored
      → All IsKept kept
      → All (λ item. IsKeptId item.listing_id) scored
  unfolding score_all
  score_all_lem flags [] scored h good = let same : scored ≡ [] = ground arith in rw same tt
  score_all_lem flags (listing ∷ kept) scored h good =
      elim (Option-cases
        (score py listing search_spec (or_else (get flags listing.listing_id) []))) [
          | inl raised ↦ absurd (ground (arith, raised, h))
          | inr (item, run) ↦
              elim (Option-cases
                (score_all py tokenize words retrieval config search_spec flags kept)) [
                  | inl raised ↦ absurd (ground (arith, raised, run, h))
                  | inr (rest, others) ↦
                      let same : scored ≡ item ∷ rest = ground (arith, run, others, h) in
                      rw same (
                        (listing, sym (score_id listing _ item run), good.0),
                        score_all_lem flags kept rest others good.1,
                      )
                ]
        ]

  -- The ranking keeps what holds of every scored listing, whatever its rank.
  ranked-All :
      (P : RankedListing F → Type 0)
      → ((item : RankedListing F) (index : ℕ) → P item → P (record item { rank = index }))
      → (limit : ℕ) (scored : List (RankedListing F)) → All P scored
      → All P (ranked py tokenize words retrieval config listings limit scored)
  unfolding apply_diversity_caps
  ranked-All P same limit scored h =
      let sorted = sort_by-All P (final_key py tokenize words retrieval config) scored h in
      numbered-All P same 1 _
        (take-All P limit _ (keep_diverse-All _ config.diversity_caps P _ _ sorted))

  rank_filtered_lem :
      (limit : ℕ) (kept : List (RankingListing F D)) (flags : Dict String (List String))
      (result : RankingResult F D)
      → rank_filtered py tokenize words retrieval config listings search_spec limit
          (some (kept, flags))
        ≡ some result
      → (scored : List (RankedListing F)) × (score_all py tokenize words retrieval config
            search_spec flags kept
          ≡ some scored)
        × (result.results ≡ ranked py tokenize words retrieval config listings limit scored)
  rank_filtered_lem limit kept flags result h =
      elim (Option-cases (score_all py tokenize words retrieval config search_spec flags kept)) [
        | inl raised ↦ absurd (ground (arith, raised, h))
        | inr (scored, run) ↦ elim (Option-cases (build_rerank_payload py config kept)) [
          | inl raised ↦ absurd (ground (arith, raised, run, h))
          | inr (payload, built) ↦
              (scored, run, sym (ap (λ x. (or_else x result).results) (rw (run, built) at h)))
        ]
      ]

  -- A ranking that is returned ranks the scores of what passes the hard constraints.
  pub rank_run :
      (limit : ℕ) (result : RankingResult F D)
      → rank py tokenize words retrieval config listings search_spec limit ≡ some result
      → (kept : List (RankingListing F D)) × (flags : Dict String (List String)) × (scored : List
          (RankedListing F))
        × All IsKept kept
        × (score_all py tokenize words retrieval config search_spec flags kept ≡ some scored)
        × (result.results ≡ ranked py tokenize words retrieval config listings limit scored)
  unfolding rank
  rank_run limit result h =
      let candidates =
        retrieve py.floats tokenize retrieval
          (build_query py tokenize words retrieval config search_spec) config.candidate_limit
          listings in
      let made = hydrate_listings listings candidates in
      elim (Option-cases
        (apply_hard_filters py tokenize words retrieval config search_spec made (some ([], [])))) [
          | inl raised ↦ absurd (ground (arith, raised, h))
          | inr ((kept, flags), run) ↦
              let (scored, done, same) = rank_filtered_lem limit kept flags result (rw run at h) in
              let good =
                apply_hard_filters_lem made ([], []) (kept, flags) run
                  (hydrate_listings-All candidates) tt in
              (kept, flags, scored, good, done, same)
        ]

  pub rank_results :
      (limit : ℕ) (result : RankingResult F D)
      → rank py tokenize words retrieval config listings search_spec limit ≡ some result
      → (scored : List (RankedListing F)) × (result.results
          ≡ ranked py tokenize words retrieval config listings limit scored)
  rank_results limit result h =
      let (kept, flags, scored, good, done, same) = rank_run limit result h in (scored, same)

  -- A ranking that is returned ranks only ids of listings that are made of a document of the
  -- repository and that are admissible: in a neighborhood that the search includes, and within its
  -- limits on price, beds, baths and commutes, and its features, as far as the values are known with a
  -- confidence of at least the threshold.
  pub rank-IsKeptId :
      (limit : ℕ) (result : RankingResult F D)
      → rank py tokenize words retrieval config listings search_spec limit ≡ some result
      → All (λ item. IsKeptId item.listing_id) result.results
  rank-IsKeptId limit result h =
      let (kept, flags, scored, good, done, same) = rank_run limit result h in
      rw same (
        ranked-All (λ item. IsKeptId item.listing_id) (λ item index k. k) limit scored
          (score_all_lem flags kept scored done good))
