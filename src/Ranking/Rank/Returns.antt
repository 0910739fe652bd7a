-- ===== src/Ranking/Rank/Returns.antt =====
-- Where the fields can be read, `rank` returns.
use apartment_finder.Prelude.{
  ℕ, ◌≡◌, refl, String, Bool, true, false, not, Option, none, some, is_none, List, [], ◌∷◌,
  take-All, keep_mono, map, All, All-append, All-mono, string_eq, arith, Option-cases, inl, inr, ap,
  ◌∙◌, eq_refl, Bool-cases,
}
use apartment_finder.Prelude.Dict.{Dict, get}
use apartment_finder.Prelude.Order.{Order, text_order, sort_by-All}
use apartment_finder.Common.Text.{is_in}
use apartment_finder.Retrieval.Models.{ListingDocument, RetrievalCandidate}
use apartment_finder.Retrieval.Repository.{Listings}
use apartment_finder.Retrieval.Service.{RetrievalConfig, retrieve}
use apartment_finder.Ranking.Models.{StructuredField, RankingListing, RankedListing, RankingConfig}
use apartment_finder.SearchSpecs.Models.{SearchSpec}
use apartment_finder.Ranking.Values.{Python, float_of}
use apartment_finder.Common.Conversion.{
  Conversion, converted, unreadable, overflowing, is_overflowing,
}
use apartment_finder.Common.Floats.{is_same}
use apartment_finder.Ranking.Hard.{evaluate_listing}
use apartment_finder.Ranking.Hard.Returns.{
  AreReadable, IsReadable, usable_lem, evaluate_listing_some,
}
use apartment_finder.Ranking.Scores.{
  Tally, score, score_price, score_rooms, score_fields, add_price, add_rooms, and_then,
}
use apartment_finder.Ranking.Rerank.{
  RerankField, RerankListing, rerank_fields, named_field, allowed_fields, build_rerank_payload,
  name_key, with_listing,
}
use apartment_finder.Ranking.Rank.{
  RankingResult, Filtered, apply_hard_filters, filter_one, with_score, score_all, rank, ranked,
  hydrate_listings, build_query, to_ranking_listing,
}

-- Every key of a dictionary is found.
keys-All :
    {V : Type 0} (d : Dict String V) → All (λ k. is_none (get d k) ≡ false) (map (λ kv. kv.0) d)
unfolding get
keys-All [] = tt
keys-All ((k, v) ∷ d) = (
  ground (arith, eq_refl k),
  All-mono (λ j. is_none (get d j) ≡ false) (λ j. is_none (get ((k, v) ∷ d) j) ≡ false) _
      (λ j held. ground (arith, held)) (keys-All d),
)

some_of_is_none : {A : Type 0} (x : Option A) → is_none x ≡ false → (a : A) × (x ≡ some a)
some_of_is_none none h = absurd (cc)
some_of_is_none (some a) h = (a, refl)

module _ {F D : Type 0} ⦃o : Order F⦄ ⦃d : Order D⦄ (py : Python F D)
    (config : RankingConfig F) where
  named_field_some :
      (name : String) (found : Option (StructuredField F D))
      (rest : Option (List (RerankField F D)))
      → is_none found ≡ false
      → IsReadable py found
      → is_none rest ≡ false
      → is_none (named_field py config name found rest) ≡ false
  named_field_some name none rest h readable others = h
  named_field_some name (some field) none h readable others = absurd (cc)
  named_field_some name (some field) (some rest) h readable others =
      let (value, c, run, fits, named) = usable_lem py _ (readable field refl) in rw run refl

  rerank_fields_some :
      (fields : Dict String (StructuredField F D)) (names : List String)
      → AreReadable py fields
      → All (λ k. is_none (get fields k) ≡ false) names
      → is_none (rerank_fields py config fields names) ≡ false
  unfolding rerank_fields
  rerank_fields_some fields [] readable held = refl
  rerank_fields_some fields (name ∷ names) readable (first, held) =
      named_field_some name (get fields name) _ first (readable name)
        (rerank_fields_some fields names readable held)

  with_listing_some :
      (listing : RankingListing F D) (fields : Option (List (RerankField F D)))
      (rest : Option (List (RerankListing F D)))
      → is_none fields ≡ false
      → is_none rest ≡ false
      → is_none (with_listing py config listing fields rest) ≡ false
  with_listing_some listing none rest h k = h
  with_listing_some listing (some fields) none h k = k
  with_listing_some listing (some fields) (some rest) h k = refl

  pub build_rerank_payload_some :
      (listings : List (RankingListing F D))
      → All (λ listing. AreReadable py listing.fields) listings
      → is_none (build_rerank_payload py config listings) ≡ false
  unfolding build_rerank_payload allowed_fields
  build_rerank_payload_some [] readable = refl
  build_rerank_payload_some (listing ∷ listings) (first, others) =
      let held : String → Type 0 = λ k. is_none (get listing.fields k) ≡ false in
      let allowed : String → Bool = λ name. not (is_in name config.blocked_rerank_fields) in
      let names = take-All held config.max_fields_for_rerank _ (
        keep_mono allowed held _
          (sort_by-All held (name_key py config) _ (keys-All listing.fields))) in
      with_listing_some listing _ _ (rerank_fields_some listing.fields _ first names)
        (build_rerank_payload_some listings others)

  add_price_some :
      (price_max : F) (t : Tally py) (x : Conversion F) (c : F)
      → is_overflowing x ≡ false
      → is_none (add_price py price_max t x c) ≡ false
  add_price_some price_max t (converted x) c h = refl
  add_price_some price_max t unreadable c h = refl
  add_price_some price_max t overflowing c h = absurd (cc)

  price_some :
      (found : Option (StructuredField F D)) (price_max : Option F) (t : Tally py)
      → IsReadable py found
      → is_none (score_price py found price_max t) ≡ false
  price_some none price_max t readable = refl
  price_some (some field) none t readable = refl
  price_some (some field) (some price_max) t readable =
      let (value, c, run, fits, named) = usable_lem py _ (readable field refl) in
      let added = add_price_some price_max t (float_of py value) c fits in
      elim (Bool-cases (is_same price_max (py.floats.literal "0.0"))) [
        | inl zero ↦ rw zero refl
        | inr nonzero ↦ rw (nonzero, run) added
      ]

  add_rooms_some :
      (weight least : F) (t : Tally py) (x : Conversion F) (c : F)
      → is_overflowing x ≡ false
      → is_none (add_rooms py weight least t x c) ≡ false
  add_rooms_some weight least t (converted x) c h = refl
  add_rooms_some weight least t unreadable c h = refl
  add_rooms_some weight least t overflowing c h = absurd (cc)

  rooms_some :
      (weight : F) (found : Option (StructuredField F D)) (least : Option F) (t : Tally py)
      → IsReadable py found
      → is_none (score_rooms py weight found least t) ≡ false
  rooms_some weight none least t readable = refl
  rooms_some weight (some field) none t readable = refl
  rooms_some weight (some field) (some least) t readable =
      let (value, c, run, fits, named) = usable_lem py _ (readable field refl) in
      rw run (add_rooms_some weight least t (float_of py value) c fits)

  and_then_some :
      (t : Option (Tally py)) (next : Tally py → Option (Tally py))
      → is_none t ≡ false
      → ((x : Tally py) → is_none (next x) ≡ false)
      → is_none (and_then py t next) ≡ false
  and_then_some none next h k = h
  and_then_some (some t) next h k = k t

  fields_some :
      (listing : RankingListing F D) (search_spec : SearchSpec F D)
      → AreReadable py listing.fields
      → is_none (score_fields py listing search_spec) ≡ false
  unfolding score_fields
  fields_some listing search_spec readable =
      and_then_some _ _
        (and_then_some _ _ (price_some _ search_spec.hard.price_max _ (readable "price"))
          (λ t. rooms_some _ _ search_spec.hard.beds_min t (readable "beds")))
        (λ t. rooms_some _ _ search_spec.hard.baths_min t (readable "baths"))

  score_some :
      (listing : RankingListing F D) (search_spec : SearchSpec F D) (flags : List String)
      → AreReadable py listing.fields
      → is_none (score py listing search_spec flags) ≡ false
  unfolding score
  score_some listing search_spec flags readable =
      let (t, run) = some_of_is_none _ (fields_some listing search_spec readable) in rw run refl

module _ {F D : Type 0} ⦃o : Order F⦄ ⦃d : Order D⦄ (py : Python F D)
    (tokenize words : String → List String) (retrieval : RetrievalConfig F)
    (config : RankingConfig F) (listings : Listings F D) (search_spec : SearchSpec F D) where
  abbrev pub IsReadableListing : RankingListing F D → Type 0
  IsReadableListing listing = AreReadable py listing.fields

  with_score_some :
      (item : Option (RankedListing F)) (rest : Option (List (RankedListing F)))
      → is_none item ≡ false
      → is_none rest ≡ false
      → is_none (with_score py tokenize words retrieval config item rest) ≡ false
  with_score_some none rest h k = h
  with_score_some (some item) none h k = k
  with_score_some (some item) (some rest) h k = refl

  score_all_some :
      (flags : Dict String (List String)) (kept : List (RankingListing F D))
      → All IsReadableListing kept
      → is_none (score_all py tokenize words retrieval config search_spec flags kept) ≡ false
  unfolding score_all
  score_all_some flags [] readable = refl
  score_all_some flags (listing ∷ kept) (first, others) =
      with_score_some _ _ (score_some py config listing search_spec _ first)
        (score_all_some flags kept others)

  filter_one-some :
      (listing : RankingListing F D) (answer : Option (Bool × List String))
      (filtered : Filtered py tokenize words retrieval config)
      → is_none answer ≡ false
      → IsReadableListing listing
      → All IsReadableListing filtered.0
      → (out : Filtered py tokenize words retrieval config) × (filter_one py tokenize words
            retrieval config listing answer filtered
          ≡ some out)
        × All IsReadableListing out.0
  filter_one-some listing none (kept, flags) h readable all = absurd (cc)
  filter_one-some listing (some (true, why)) (kept, flags) h readable all =
      (_, refl, All-append IsReadableListing kept (listing ∷ []) all (readable, tt))
  filter_one-some listing (some (false, why)) (kept, flags) h readable all = (_, refl, all)

  apply_hard_filters-some :
      (made : List (RankingListing F D)) (filtered : Filtered py tokenize words retrieval config)
      → All IsReadableListing made
      → All IsReadableListing filtered.0
      → (out : Filtered py tokenize words retrieval config) × (apply_hard_filters py tokenize words
            retrieval config search_spec made
            (some filtered)
          ≡ some out)
        × All IsReadableListing out.0
  unfolding apply_hard_filters
  apply_hard_filters-some [] filtered readable all = (filtered, refl, all)
  apply_hard_filters-some (listing ∷ made) filtered (first, others) all =
      let (next, run, all') =
        filter_one-some listing
          (evaluate_listing py config.hard_confidence_threshold listing search_spec) filtered
          (evaluate_listing_some py config.hard_confidence_threshold listing search_spec first)
          first all in
      let (out, run', all'') = apply_hard_filters-some made next others all' in
      (
        out,
        ap (λ x. apply_hard_filters py tokenize words retrieval config search_spec made x) run
            ∙ run',
        all'',
      )

  hydrate_some :
      ((k : String) (doc : ListingDocument F D)
        → get listings k ≡ some doc
        → AreReadable py (to_ranking_listing doc).fields)
      → (candidates : List (RetrievalCandidate F))
      → All IsReadableListing (hydrate_listings listings candidates)
  unfolding hydrate_listings
  hydrate_some readable [] = tt
  hydrate_some readable (candidate ∷ candidates) =
      elim (Option-cases (get listings candidate.listing_id)) [
        | inl missing ↦ rw missing (hydrate_some readable candidates)
        | inr (doc, found) ↦
            rw found (readable candidate.listing_id doc found, hydrate_some readable candidates)
      ]

  -- Where every field of the listings of the repository can be resolved, none resolves to a number
  -- that a float cannot hold, and `str` returns on what a list of features gives as values, `rank`
  -- raises no exception: a ranking is returned for every search and every limit.
  pub rank_returns :
      (limit : ℕ)
      → ((k : String) (doc : ListingDocument F D)
          → get listings k ≡ some doc
          → AreReadable py (to_ranking_listing doc).fields)
      → (result : RankingResult F D) × (rank py tokenize words retrieval config listings search_spec
            limit
          ≡ some result)
  unfolding rank
  rank_returns limit readable =
      let candidates =
        retrieve py.floats tokenize retrieval
          (build_query py tokenize words retrieval config search_spec) config.candidate_limit
          listings in
      let made = hydrate_listings listings candidates in
      let (out, run, all) =
        apply_hard_filters-some made ([], []) (hydrate_some readable candidates) tt in
      let (scored, done) = some_of_is_none _ (score_all_some out.1 out.0 all) in
      let (payload, built) = some_of_is_none _ (build_rerank_payload_some py config out.0 all) in
      (
        record {
          search_spec = search_spec;
          results = ranked py tokenize words retrieval config listings limit scored;
          rerank_payload = payload;
        },
        rw (run, done, built) refl,
      )
