-- ===== src/Ranking/Diversity/Bound.antt =====
-- The diversity caps bound what is kept.
use mathlib.Core.List.{append_assoc, append-nil}
use apartment_finder.Prelude.{
  eq_iff, ◌+◌, ◌≤◌, ◌≡◌, String, true, false, Option, none, some, List, [], ◌∷◌, ◌++◌,
  if◌then◌else◌, string_eq, keep, arith, ◌==◌, Bool-cases, inl, inr, leb_false→lt,
}
use apartment_finder.Prelude.Dict.{Dict, get}
use apartment_finder.Retrieval.Models.{ListingDocument}
use apartment_finder.Ranking.Models.{RankedListing, DiversityCaps}
use apartment_finder.Ranking.Diversity.{apply_diversity_caps}
use apartment_finder.Ranking.Diversity.Greedy.{
  Dimension, building, neighborhood, source, cap_of, value_in, has_value, kept_with, is_full,
  has_room, greedy, kept_with-append, apply_diversity_caps-greedy,
}

module _ {F D : Type 0} (lookup : Dict String (ListingDocument F D)) (caps : DiversityCaps) where
  room_below :
      (listing : ListingDocument F D) (kept : List (RankedListing F)) (dimension : Dimension)
      → has_room lookup caps (some listing) kept ≡ true
      → is_full lookup caps dimension listing kept ≡ false
  room_below listing kept building room = ground arith
  room_below listing kept neighborhood room = ground arith
  room_below listing kept source room = ground arith

  room_bound :
      (found : Option (ListingDocument F D)) (kept : List (RankedListing F)) (dimension : Dimension)
      (k : String)
      → has_room lookup caps found kept ≡ true
      → kept_with lookup caps dimension k kept ≤ cap_of dimension caps
      → (if has_value lookup caps dimension k found then 1 else 0)
          + kept_with lookup caps dimension k kept
        ≤ cap_of dimension caps
  room_bound none kept dimension k room h = omega (arith, h)
  room_bound (some listing) kept dimension k room h =
      elim (Bool-cases (value_in lookup caps dimension listing == k)) [
        | inl same ↦
            let e : value_in lookup caps dimension listing ≡ k = (eq_iff _ k).0 same in
            let below = leb_false→lt _ _ (rw e at (room_below listing kept dimension room)) in
            rw same (omega (arith, below))
        | inr other ↦ rw other (omega (arith, h))
      ]

  one_more_bound :
      (kept : List (RankedListing F)) (item : RankedListing F) (dimension : Dimension) (k : String)
      → has_room lookup caps (get lookup item.listing_id) kept ≡ true
      → kept_with lookup caps dimension k kept ≤ cap_of dimension caps
      → kept_with lookup caps dimension k (kept ++ item ∷ []) ≤ cap_of dimension caps
  one_more_bound kept item dimension k room h =
      rw (kept_with-append lookup caps dimension k kept item)
        (room_bound (get lookup item.listing_id) kept dimension k room h)

  greedy_bound :
      (scored kept : List (RankedListing F)) (dimension : Dimension) (k : String)
      → kept_with lookup caps dimension k kept ≤ cap_of dimension caps
      → kept_with lookup caps dimension k (kept ++ greedy lookup caps kept scored)
        ≤ cap_of dimension caps
  unfolding greedy
  greedy_bound [] kept dimension k h = rw (append-nil kept) h
  greedy_bound (item ∷ scored) kept dimension k h =
      elim (Bool-cases (has_room lookup caps (get lookup item.listing_id) kept)) [
        | inl room ↦
            let next =
              greedy_bound scored (kept ++ item ∷ []) dimension k
                (one_more_bound kept item dimension k room h) in
            rw room (rw (append_assoc kept (item ∷ []) _) at next)
        | inr full ↦ rw full (greedy_bound scored kept dimension k h)
      ]

  -- However many listings are ranked, those that the diversity caps leave have no more than
  -- `per_building` listings of any one building, `per_neighborhood` of any one neighborhood and
  -- `per_source` of any one source, counting the listings that the repository has.
  pub apply_diversity_caps_bound :
      (scored : List (RankedListing F)) (dimension : Dimension) (k : String)
      → kept_with lookup caps dimension k (apply_diversity_caps lookup caps scored)
        ≤ cap_of dimension caps
  unfolding keep
  apply_diversity_caps_bound scored dimension k =
      rw (apply_diversity_caps-greedy lookup caps scored)
        (greedy_bound scored [] dimension k (omega arith))
