-- ===== src/Tests/Clusters.antt =====
-- The theorems on the clusters of services/dedupe at concrete values.
use apartment_finder.Prelude.{ℕ, ◌≡◌, refl, ◌↔◌, String, some, List, [], ◌∷◌, keep, ◌==◌, string_eq}
use apartment_finder.Prelude.Dict.{get, put}
use apartment_finder.Prelude.Order.{sort_by, text_order}
use apartment_finder.Dedupe.Bands.{PairDecision}
use apartment_finder.Dedupe.Clusters.{Groups, singletons, ids_of, partition}
use apartment_finder.Dedupe.Clusters.Connected.{Linked}
use apartment_finder.Dedupe.Clusters.Merges.{Merged}
use apartment_finder.Dedupe.Clusters.Partition.{members_of, partition_lem}

abbrev homes : List String
homes = "c" ∷ "a" ∷ "b" ∷ []

-- Two listings are merged, and the third is only to be reviewed.
abbrev merges : List (PairDecision ℕ)
merges =
    record { left_id = "c"; right_id = "a"; score = 9; band = "auto_merge" }
    ∷ record { left_id = "a"; right_id = "b"; score = 5; band = "review" }
    ∷ []

partition_lem_example :
    (groups : Groups) × (root : String → String) × (partition homes merges ≡ some groups)
    × ((x y : String) → (root x ≡ root y) ↔ Linked (Merged merges) x y)
    × ((r : String)
        → members_of groups r
          ≡ sort_by (λ x. x) (keep (λ x. root x == r) (ids_of (singletons homes []))))
unfolding get singletons put
partition_lem_example =
    partition_lem homes merges ((("c", refl), ("a", refl)), ((("a", refl), ("b", refl)), tt))
