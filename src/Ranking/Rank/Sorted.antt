-- ===== src/Ranking/Rank/Sorted.antt =====
-- The order and the ranks of what `rank` returns.
use apartment_finder.Prelude.{
  zero, suc, ℕ, ◌+◌, ◌≤◌, ◌≡◌, refl, String, some, List, [], ◌∷◌, take, take-All, length-take,
  length, string_eq, arith, Bool-cases, inl, inr,
}
use apartment_finder.Prelude.Order.{
  Desc, Order, Before, IsSorted, desc_order, pair_order, text_order, sort_by, sort_by-IsSorted,
}
use apartment_finder.Ranking.Rank.Results.{keep_diverse-All, numbered-All, rank_results}
use apartment_finder.Prelude.Dict.{Dict, get, values}
use apartment_finder.Retrieval.Models.{ListingDocument}
use apartment_finder.Retrieval.Repository.{Listings}
use apartment_finder.Retrieval.Service.{RetrievalConfig}
use apartment_finder.Ranking.Models.{RankedListing, RankingConfig}
use apartment_finder.SearchSpecs.Models.{SearchSpec}
use apartment_finder.Ranking.Values.{Python}
use apartment_finder.Ranking.Diversity.{Counts, place, keep_diverse, apply_diversity_caps}
use apartment_finder.Ranking.Rank.{RankingResult, numbered, final_key, ranked, rank, listing_lookup}

module _ {F D : Type 0} ⦃o : Order F⦄ ⦃d : Order D⦄ (py : Python F D)
    (tokenize words : String → List String) (retrieval : RetrievalConfig F)
    (config : RankingConfig F) where
  abbrev key : RankedListing F → Desc F × String
  key = final_key py tokenize words retrieval config

  keep_diverse-IsSorted :
      (lookup : Dict String (ListingDocument F D)) (scored : List (RankedListing F)) (c : Counts)
      → IsSorted key scored
      → IsSorted key (keep_diverse lookup config.diversity_caps scored c)
  unfolding keep_diverse
  keep_diverse-IsSorted lookup [] c h = tt
  keep_diverse-IsSorted lookup (item ∷ scored) c h =
      let placed = place lookup config.diversity_caps (get lookup item.listing_id) c in
      let after =
        keep_diverse-All lookup config.diversity_caps (Before key item) scored placed.1 h.0 in
      let rest = keep_diverse-IsSorted lookup scored placed.1 h.1 in
      elim (Bool-cases placed.0) [
        | inl kept ↦ rw kept (after, rest)
        | inr dropped ↦ rw dropped rest
      ]

  take-IsSorted :
      (n : ℕ) (items : List (RankedListing F)) → IsSorted key items → IsSorted key (take n items)
  unfolding take
  take-IsSorted zero items h = tt
  take-IsSorted (suc n) [] h = tt
  take-IsSorted (suc n) (item ∷ items) h =
      (take-All (Before key item) n items h.0, take-IsSorted n items h.1)

  numbered-IsSorted :
      (index : ℕ) (items : List (RankedListing F))
      → IsSorted key items
      → IsSorted key (numbered index items)
  unfolding numbered
  numbered-IsSorted index [] h = tt
  numbered-IsSorted index (item ∷ items) h = (
    numbered-All (Before key (record item { rank = index })) (λ next place before. before)
        (index + 1) items h.0,
    numbered-IsSorted (index + 1) items h.1,
  )

  -- The ranks that follow each other from `index` on.
  abbrev pub IsNumbered : ℕ → List (RankedListing F) → Type 0
  IsNumbered index [] = Unit
  IsNumbered index (item ∷ items) = (item.rank ≡ index) × IsNumbered (index + 1) items

  numbered-IsNumbered :
      (index : ℕ) (items : List (RankedListing F)) → IsNumbered index (numbered index items)
  unfolding numbered
  numbered-IsNumbered index [] = tt
  numbered-IsNumbered index (item ∷ items) = (refl, numbered-IsNumbered (index + 1) items)

  length-numbered :
      (index : ℕ) (items : List (RankedListing F)) → length (numbered index items) ≡ length items
  unfolding numbered
  length-numbered index [] = refl
  length-numbered index (item ∷ items) = omega (arith, length-numbered (index + 1) items)

  abbrev pub IsRanked : ℕ → List (RankedListing F) → Type 0
  IsRanked limit results = IsSorted key results × IsNumbered 1 results × (length results ≤ limit)

  ranked-IsRanked :
      (listings : Listings F D) (limit : ℕ) (scored : List (RankedListing F))
      → IsRanked limit (ranked py tokenize words retrieval config listings limit scored)
  unfolding apply_diversity_caps
  ranked-IsRanked listings limit scored =
      let lookup = listing_lookup (values listings) [] in
      let diverse = apply_diversity_caps lookup config.diversity_caps (sort_by key scored) in
      (
        numbered-IsSorted 1 (take limit diverse) (
            take-IsSorted limit diverse
              (keep_diverse-IsSorted lookup _ _ (sort_by-IsSorted key scored))),
        numbered-IsNumbered 1 (take limit diverse),
        omega (arith, length-numbered 1 (take limit diverse), length-take limit diverse),
      )

  -- The results of a ranking are in the order of falling final scores, with ties by listing id, have
  -- the ranks 1, 2, and so on, and are no more than the limit.
  pub rank-IsRanked :
      (listings : Listings F D) (search_spec : SearchSpec F D) (limit : ℕ)
      (result : RankingResult F D)
      → rank py tokenize words retrieval config listings search_spec limit ≡ some result
      → IsRanked limit result.results
  unfolding rank
  rank-IsRanked listings search_spec limit result h =
      let (scored, same) =
        rank_results py tokenize words retrieval config listings search_spec limit result h in
      rw same (ranked-IsRanked listings limit scored)
