-- ===== src/Retrieval/Repository.antt =====
-- services/retrieval/repository.py and utils.py. `tokenize`, which finds words by a regular expression,
-- and the operations on floats are parameters.
use apartment_finder.Prelude.{
  ℕ, ◌+◌, String, Bool, true, false, not, ◌||◌, Option, none, some, List, [], ◌∷◌, take, length,
  if◌then◌else◌, string_eq, ◌==◌, nat_beq,
}
use apartment_finder.Prelude.Dict.{Dict, put, values}
use apartment_finder.Prelude.Order.{Order, Desc, desc_order, pair_order, text_order, sort_by}
use apartment_finder.Common.Floats.{Floats, is_below, is_same}
use apartment_finder.Retrieval.Models.{ListingDocument}

abbrev pub Listings : Type 0 → Type 0 → Type 0
Listings F D = Dict String (ListingDocument F D)

-- `ListingRepository.add`
unfoldable pub add_listing : {F D : Type 0} → ListingDocument F D → Listings F D → Listings F D
add_listing listing listings = put listings listing.listing_id listing

module _ {F : Type 0} ⦃o : Order F⦄ (floats : Floats F) (tokenize : String → List String) where
  abbrev zero_score : F
  zero_score = floats.literal "0.0"

  unfoldable pub dot : F → List F → List F → F
  dot total [] right = total
  dot total (l ∷ left) [] = total
  dot total (l ∷ left) (r ∷ right) = dot (floats.plus total (floats.times l r)) left right

  abbrev pub norm : List F → F
  norm xs = floats.square_root (dot (floats.of_nat 0) xs xs)

  abbrev pub is_nothing : List F → Bool
  is_nothing [] = true
  is_nothing (x ∷ xs) = false

  unfoldable pub cosine_similarity : List F → List F → F
  unfolding dot
  cosine_similarity left right =
      if is_nothing left || (is_nothing right || not (nat_beq (length left) (length right)))
      then zero_score
      else if is_same (norm left) (floats.of_nat 0) || is_same (norm right) (floats.of_nat 0)
      then zero_score
      else floats.over (dot (floats.of_nat 0) left right) (floats.times (norm left) (norm right))

  -- `tokens.count(token)`
  unfoldable pub count_token : String → List String → ℕ
  count_token token [] = 0
  count_token token (t ∷ tokens) =
      let rest = count_token token tokens in if t == token then rest + 1 else rest

  unfoldable pub count_keywords : List String → List String → ℕ
  unfolding count_token
  count_keywords tokens [] = 0
  count_keywords tokens (keyword ∷ keywords) =
      count_token keyword tokens + count_keywords tokens keywords

  abbrev pub put_if_positive : Dict String F → String → F → Dict String F
  put_if_positive scores k score =
      if is_below (floats.of_nat 0) score then put scores k score else scores

  -- `(-item[1], item[0])`
  abbrev pub score_key : String × F → Desc F × String
  score_key (k, score) = (record { key = score }, k)

  module _ {D : Type 0} where
    abbrev pub text_score : List String → F → F → ListingDocument F D → F
    text_score keywords title_weight body_weight listing =
        floats.plus
          (floats.times (floats.of_nat (count_keywords (tokenize listing.title) keywords))
            title_weight)
          (floats.times (floats.of_nat (count_keywords (tokenize listing.body) keywords))
            body_weight)

    unfoldable pub text_scores :
        List String → F → F → List (ListingDocument F D) → Dict String F → Dict String F
    unfolding count_keywords
    text_scores keywords title_weight body_weight [] scores = scores
    text_scores keywords title_weight body_weight (listing ∷ listings) scores =
        text_scores keywords title_weight body_weight listings (
          put_if_positive scores listing.listing_id
            (text_score keywords title_weight body_weight listing))

    abbrev pub search_texts : List String → ℕ → F → F → Listings F D → List (String × F)
    search_texts keywords limit title_weight body_weight listings =
        take limit
          (sort_by score_key (text_scores keywords title_weight body_weight (values listings) []))

    unfoldable pub fts_search : List String → ℕ → F → F → Listings F D → List (String × F)
    unfolding text_scores sort_by take
    fts_search [] limit title_weight body_weight listings = []
    fts_search (keyword ∷ keywords) limit title_weight body_weight listings =
        search_texts (keyword ∷ keywords) limit title_weight body_weight listings

    abbrev pub put_similarity :
        List F → ListingDocument F D → Option (List F) → Dict String F → Dict String F
    put_similarity vector listing none scores = scores
    put_similarity vector listing (some embedding) scores =
        put scores listing.listing_id (cosine_similarity vector embedding)

    unfoldable pub vector_scores :
        List F → List (ListingDocument F D) → Dict String F → Dict String F
    unfolding cosine_similarity
    vector_scores vector [] scores = scores
    vector_scores vector (listing ∷ listings) scores =
        vector_scores vector listings (put_similarity vector listing listing.embedding scores)

    unfoldable pub vector_search : List F → ℕ → Listings F D → List (String × F)
    unfolding vector_scores sort_by take
    vector_search [] limit listings = []
    vector_search (x ∷ vector) limit listings =
        take limit (sort_by score_key (vector_scores (x ∷ vector) (values listings) []))
