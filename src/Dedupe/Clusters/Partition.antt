-- ===== src/Dedupe/Clusters/Partition.antt =====
-- The clusters are the classes of the listings under the automatic merges.
use mathlib.Core.Path.{subst}
use mathlib.Core.List.{append_assoc, append-nil}
use apartment_finder.Prelude.{
  ℕ, suc, ◌<◌, ◌≡◌, refl, sym, ◌∙◌, String, some, arith, eq_iff, ap, eq_refl, ◌==◌, string_eq,
  Bool-cases, inl, inr, List, [], ◌∷◌, ◌++◌, length, ◌↔◌, All, All-mono, keep, or_else,
  if◌then◌else◌,
}
use apartment_finder.Prelude.Dict.{get, put, get-put}
use apartment_finder.Prelude.Order.{text_order, sort_by}
use apartment_finder.Dedupe.Bands.{PairDecision}
use apartment_finder.Dedupe.Canonical.{append_to}
use apartment_finder.Dedupe.Clusters.{
  Parents, Groups, ids_of, singletons, group, sort_members, partition,
}
use apartment_finder.Dedupe.Clusters.Forest.{IsForest}
use apartment_finder.Dedupe.Clusters.Walk.{find_lem, get_of_ids}
use apartment_finder.Dedupe.Clusters.Connected.{Linked, alone, edge, flip, join, Solved}
use apartment_finder.Dedupe.Clusters.Merges.{IsItem, AreItems, Merged, union_all_lem}

abbrev pub members_of : Groups → String → List String
members_of groups r = or_else (get groups r) []

members_of-append_to :
    (groups : Groups) (root item r : String)
    → members_of (append_to groups root item) r
      ≡ (if root == r then members_of groups root ++ item ∷ [] else members_of groups r)
members_of-append_to groups root item r =
    ground (arith, get-put groups root r (or_else (get groups root) [] ++ item ∷ []))

module _ (root : String → String) (depth : String → ℕ)
    (idem : (y : String) → root (root y) ≡ root y) where
  group_lem :
      (fuel : ℕ) (items : List String) (groups : Groups) (parents : Parents)
      → IsForest parents root depth
      → ((y : String) → depth y < fuel)
      → All (IsItem parents) items
      → (after : Groups) × (left : Parents) × (group fuel items groups parents ≡ some (after, left))
        × ((r : String) → members_of after r ≡ members_of groups r ++ keep (λ x. root x == r) items)
  unfolding group keep
  group_lem fuel [] groups parents forest enough held =
      (groups, parents, refl, λ r. sym (append-nil _))
  group_lem fuel (item ∷ items) groups parents forest enough (here, held) =
      let walk = find_lem root depth idem fuel item parents forest here.1 (enough item) in
      let moved =
        All-mono (IsItem parents) (IsItem walk.left) items
          (λ x i. get_of_ids parents walk.left x walk.ids i.1) held in
      let rest =
        group_lem fuel items (append_to groups (root item) item) walk.left walk.forest enough
          moved in
      (
        rest.0,
        rest.1,
        ground (arith, walk.found, rest.2),
        λ r. rest.3 r ∙ elim (Bool-cases (root item == r)) [
          | inl same ↦
              rw (members_of-append_to, same)
                (append_assoc (members_of groups (root item)) (item ∷ []) _
                  ∙ ap (λ (g : String). members_of groups g ++ item ∷ keep (λ x. root x == r) items)
                      ((eq_iff (root item) r).0 same))
          | inr other ↦ rw (members_of-append_to, other) refl
        ],
      )

-- The items of a table that is made of them are their own parents.
singletons_self :
    (items : List String) (parents : Parents)
    → ((x p : String) → get parents x ≡ some p → p ≡ x)
    → (x p : String) → get (singletons items parents) x ≡ some p
    → p ≡ x
unfolding singletons
singletons_self [] parents self x p held = self x p held
singletons_self (item ∷ items) parents self x p held =
    singletons_self items (put parents item item)
      (λ y q found. elim (Bool-cases (item == y)) [
        | inl same ↦ ground (arith, found, get-put parents item y item, same, eq_iff item y)
        | inr other ↦ self y q (ground (arith, found, get-put parents item y item, other))
      ])
      x p held

members_of-sort_members :
    (groups : Groups) (r : String)
    → members_of (sort_members groups) r ≡ sort_by (λ x. x) (members_of groups r)
unfolding sort_members get sort_by
members_of-sort_members [] r = refl
members_of-sort_members ((g, members) ∷ groups) r = ground (arith, members_of-sort_members groups r)

items_held : (parents : Parents) → All (IsItem parents) (ids_of parents)
unfolding get
items_held [] = tt
items_held ((x, p) ∷ parents) = (
  (p, ground (arith, eq_refl x)),
  All-mono (IsItem parents) (IsItem ((x, p) ∷ parents)) (ids_of parents)
      (λ y i. elim (Bool-cases (x == y)) [
        | inl same ↦ (p, ground (arith, same))
        | inr other ↦ (i.0, ground (arith, other, i.1))
      ])
      (items_held parents),
)

Linked-root :
    (E : String → String → Type 0) (root : String → String)
    → ((x y : String) → E x y → root x ≡ root y)
    → {x y : String} → Linked E x y
    → root x ≡ root y
Linked-root E root h (edge e) = h _ _ e
Linked-root E root h alone = refl
Linked-root E root h (flip l) = sym (Linked-root E root h l)
Linked-root E root h (join l k) = Linked-root E root h l ∙ Linked-root E root h k

module _ {Score : Type 0} where
  -- With decisions about the given listings only, the union-find never fails nor runs out of fuel. It
  -- gives each listing a representative such that two listings have the same one exactly if automatic
  -- merges link them, directly or through others, and the group of a representative is the sorted
  -- list of the listings that have it.
  pub partition_lem :
      (listing_ids : List String) (decisions : List (PairDecision Score))
      → All (AreItems (singletons listing_ids [])) decisions
      → (groups : Groups) × (root : String → String) × (partition listing_ids decisions
          ≡ some groups)
        × ((x y : String) → (root x ≡ root y) ↔ Linked (Merged decisions) x y)
        × ((r : String)
            → members_of groups r
              ≡ sort_by (λ x. x) (keep (λ x. root x == r) (ids_of (singletons listing_ids []))))
  unfolding partition get
  partition_lem listing_ids decisions items =
      let start = singletons listing_ids [] in
      let start_self = singletons_self listing_ids [] (λ x p held. cc) in
      let solved : Solved (Merged decisions) 0 start (λ x. x) (λ x. 0) = record {
        forest = λ x p held. record {
          same_root = start_self x p held;
          top = ground (arith, held, start_self x p held);
          flat = refl;
          self = λ t. refl;
          below = λ f. absurd (ground (arith, f, eq_iff p x, start_self x p held));
          held = ground (arith, held, start_self x p held);
        };
        idem = λ y. refl;
        bound = λ y. omega arith;
        sound = λ x y e. subst (λ z. Linked (Merged decisions) x z) e alone;
      } in
      let m =
        union_all_lem (Merged decisions) (suc (length decisions)) 0 decisions start (λ x. x)
          (λ x. 0) solved (omega arith) items (λ x y e. e) in
      let g =
        group_lem m.new_root m.new_depth m.solved.idem (suc (length decisions)) (ids_of m.after) []
          m.after m.solved.forest (λ y. omega (arith, m.solved.bound y)) (items_held m.after) in
      (
        sort_members g.0,
        m.new_root,
        ground (arith, m.returned, g.2),
        (λ x y. (m.solved.sound x y, Linked-root (Merged decisions) m.new_root m.joined)),
        λ r.
            members_of-sort_members g.0 r
            ∙ ap (sort_by (λ x. x)) (g.3 r ∙ ap (keep (λ x. m.new_root x == r)) m.ids),
      )
