-- ===== src/Dedupe/Clusters.antt =====
-- `_UnionFind` and `cluster` of services/dedupe/service.py. `find` follows the parents on fuel: `none`
-- is a KeyError or the end of the fuel.
pub mod Forest
pub mod Walk
pub mod Connected
pub mod Merges
pub mod Partition
use apartment_finder.Prelude.{
  ℕ, zero, suc, ◌+◌, String, Bool, true, false, not, Option, none, some, List, [], ◌∷◌, ◌++◌,
  or_else, length, if◌then◌else◌, ◌==◌, string_eq, map,
}
use apartment_finder.Prelude.Dict.{Dict, get, put, values}
use apartment_finder.Prelude.Order.{Order, text_order, list_order, sort_by}
use apartment_finder.Dedupe.Bands.{PairDecision}
use apartment_finder.Dedupe.Canonical.{Cluster, append_to}

abbrev pub Parents : Type 0
Parents = Dict String String

-- `{item: item for item in items}`
unfoldable pub singletons : List String → Parents → Parents
singletons [] parents = parents
singletons (item ∷ items) parents = singletons items (put parents item item)

abbrev pub Found : Type 0
Found = Option (String × Parents)

-- The keys of the table.
abbrev pub ids_of : Parents → List String
ids_of parents = map (λ kv. kv.0) parents

-- The path is compressed on the way back.
abbrev pub compress : String → Found → Found
compress item none = none
compress item (some (root, parents)) = some (root, put parents item root)

unfoldable pub find : ℕ → String → Parents → Found
find zero item parents = none
find (suc fuel) item parents = elim (get parents item) [
  | none ↦ none
  | some parent ↦ elim (parent == item) [
    | true ↦ some (item, parents)
    | false ↦ compress item (find fuel parent parents)
  ]
]

-- `left_root < right_root`
abbrev pub text_ltb : String → String → Bool
text_ltb a b = not (text_order.le? b a)

abbrev pub link : String → String → Parents → Parents
link left_root right_root parents =
    if left_root == right_root
    then parents
    else if text_ltb left_root right_root
    then put parents right_root left_root
    else put parents left_root right_root

abbrev pub link_found : String → Found → Option Parents
link_found left_root none = none
link_found left_root (some (right_root, parents)) = some (link left_root right_root parents)

abbrev pub union_found : ℕ → String → Found → Option Parents
union_found fuel right none = none
union_found fuel right (some (left_root, parents)) = link_found left_root (find fuel right parents)

unfoldable pub union : ℕ → String → String → Parents → Option Parents
unfolding find
union fuel left right parents = union_found fuel right (find fuel left parents)

abbrev pub Groups : Type 0
Groups = Dict String (List String)

abbrev pub Grouped : Type 0
Grouped = Option (Groups × Parents)

-- The loop of `groups` over the items, which `find` changes as it goes.
unfoldable pub group : ℕ → List String → Groups → Parents → Grouped
unfolding find
group fuel [] groups parents = some (groups, parents)
group fuel (item ∷ items) groups parents = elim (find fuel item parents) [
  | none ↦ none
  | some (root, parents') ↦ group fuel items (append_to groups root item) parents'
]

unfoldable pub sort_members : Groups → Groups
sort_members [] = []
sort_members ((root, members) ∷ groups) =
    (root, sort_by (λ item. item) members) ∷ sort_members groups

abbrev pub sorted_groups : Grouped → Option Groups
sorted_groups none = none
sorted_groups (some (groups, parents)) = some (sort_members groups)

-- `cluster_id` stands for `deterministic_id`. Equal ids keep the order of the member lists.
abbrev pub clusters_of : (List String → String) → Groups → List Cluster
clusters_of cluster_id groups =
    sort_by (λ c. c.cluster_id)
      (map (λ members. record { cluster_id = cluster_id members; members = members })
        (sort_by {K = List String} (λ members. members) (values groups)))

module _ {Score : Type 0} where
  unfoldable pub union_all : ℕ → List (PairDecision Score) → Parents → Option Parents
  unfolding union
  union_all fuel [] parents = some parents
  union_all fuel (d ∷ ds) parents = elim (d.band == "auto_merge") [
    | false ↦ union_all fuel ds parents
    | true ↦ elim (union fuel d.left_id d.right_id parents) [
      | none ↦ none
      | some parents' ↦ union_all fuel ds parents'
    ]
  ]

  -- The groups after all the automatic merges. The fuel is one more than the decisions: each merge
  -- makes a path longer by one at most.
  unfoldable pub partition : List String → List (PairDecision Score) → Option Groups
  unfolding union_all group sort_members singletons
  partition listing_ids decisions =
      elim (union_all (suc (length decisions)) decisions (singletons listing_ids [])) [
        | none ↦ none
        | some parents ↦ sorted_groups (group (suc (length decisions)) (ids_of parents) [] parents)
      ]

  unfoldable pub cluster :
      (List String → String) → List String → List (PairDecision Score) → Option (List Cluster)
  unfolding partition
  cluster cluster_id listing_ids decisions = elim (partition listing_ids decisions) [
    | none ↦ none
    | some groups ↦ some (clusters_of cluster_id groups)
  ]
