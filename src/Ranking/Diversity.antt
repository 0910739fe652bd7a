-- ===== src/Ranking/Diversity.antt =====
-- `_apply_diversity_caps` of services/ranking/service.py. `lookup` is `listing_lookup`, the listings
-- of the repository by id.
pub mod Greedy
pub mod Bound
use apartment_finder.Prelude.{
  ℕ, ◌+◌, String, Bool, true, false, not, ◌||◌, Option, none, some, List, [], ◌∷◌, or_else, leb,
  if◌then◌else◌, string_eq,
}
use apartment_finder.Prelude.Dict.{Dict, get, put}
use apartment_finder.Retrieval.Models.{ListingDocument}
use apartment_finder.Ranking.Models.{RankedListing, DiversityCaps}

pub record Counts : Type 0 where
  pub building_counts : Dict String ℕ
  pub neighborhood_counts : Dict String ℕ
  pub source_counts : Dict String ℕ

-- `counts[k]`, which is there since `counts.setdefault(k, 0)`.
abbrev pub count_of : Dict String ℕ → String → ℕ
count_of counts k = or_else (get counts k) 0

module _ {F D : Type 0} (lookup : Dict String (ListingDocument F D)) (caps : DiversityCaps) where
  abbrev pub is_capped : ListingDocument F D → Counts → Bool
  is_capped listing c =
      leb caps.per_building (count_of c.building_counts listing.building_id)
      || (leb caps.per_neighborhood (count_of c.neighborhood_counts listing.neighborhood)
          || leb caps.per_source (count_of c.source_counts listing.source_id))

  -- `counts.setdefault(k, 0)` for each of the three.
  abbrev pub with_defaults : ListingDocument F D → Counts → Counts
  with_defaults listing c = record {
    building_counts =
        put c.building_counts listing.building_id (count_of c.building_counts listing.building_id);
    neighborhood_counts =
        put c.neighborhood_counts listing.neighborhood
          (count_of c.neighborhood_counts listing.neighborhood);
    source_counts =
        put c.source_counts listing.source_id (count_of c.source_counts listing.source_id);
  }

  abbrev pub with_one_more : ListingDocument F D → Counts → Counts
  with_one_more listing c = record {
    building_counts =
        put c.building_counts listing.building_id
          (count_of c.building_counts listing.building_id + 1);
    neighborhood_counts =
        put c.neighborhood_counts listing.neighborhood
          (count_of c.neighborhood_counts listing.neighborhood + 1);
    source_counts =
        put c.source_counts listing.source_id (count_of c.source_counts listing.source_id + 1);
  }

  -- Whether the item is kept, and the counts after it.
  abbrev pub place : Option (ListingDocument F D) → Counts → Bool × Counts
  place none c = (true, c)
  place (some listing) c =
      if is_capped listing (with_defaults listing c)
      then (false, with_defaults listing c)
      else (true, with_one_more listing (with_defaults listing c))

  unfoldable pub keep_diverse : List (RankedListing F) → Counts → List (RankedListing F)
  keep_diverse [] c = []
  keep_diverse (item ∷ scored) c =
      let placed = place (get lookup item.listing_id) c in
      let rest = keep_diverse scored placed.1 in if placed.0 then item ∷ rest else rest

  unfoldable pub apply_diversity_caps : List (RankedListing F) → List (RankedListing F)
  unfolding keep_diverse
  apply_diversity_caps scored =
      keep_diverse scored
        (record { building_counts = []; neighborhood_counts = []; source_counts = [] })
