-- ===== src/Dedupe/Clusters/Walk.antt =====
-- With more fuel than an item is high, `find` ends at its root, and the forest stays the same.
use apartment_finder.Prelude.{
  ℕ, zero, suc, ◌<◌, ◌≡◌, refl, ◌∙◌, String, some, arith, ◌==◌, string_eq, Bool-cases, Option-cases,
  inl, inr, [], ◌∷◌,
}
use apartment_finder.Prelude.Dict.{get, put}
use apartment_finder.Dedupe.Clusters.{ids_of, Parents, Found, find}
use apartment_finder.Dedupe.Clusters.Forest.{IsForest, ids_of-put, compress-IsForest}

-- A search that has found the root of `x`, with a table of the same items and roots.
pub record Walked (parents : Parents) (root : String → String) (depth : String → ℕ) (x : String)
    (r : Found) : Type 0 where
  pub left : Parents
  pub found : r ≡ some (root x, left)
  pub forest : IsForest left root depth
  pub ids : ids_of left ≡ ids_of parents

-- The items of a table are those with a parent.
pub get_of_ids :
    (parents others : Parents) (x : String) {p : String}
    → ids_of others ≡ ids_of parents
    → get parents x ≡ some p
    → (q : String) × (get others x ≡ some q)
unfolding get
get_of_ids [] others x e held = absurd (cc)
get_of_ids ((y, v) ∷ parents) [] x e held = absurd (cc)
get_of_ids ((y, v) ∷ parents) ((z, w) ∷ others) x {p} e held = elim (Bool-cases (y == x)) [
  | inl same ↦ (w, ground (arith, e, same))
  | inr other ↦
      let rest = get_of_ids parents others x {p = p} (cc e) (ground (arith, held, other)) in
      (rest.0, ground (arith, e, other, rest.1))
]

module _ (root : String → String) (depth : String → ℕ)
    (idem : (y : String) → root (root y) ≡ root y) where
  pub find_lem :
      (fuel : ℕ) (x : String) (parents : Parents) {p : String}
      → IsForest parents root depth
      → get parents x ≡ some p
      → depth x < fuel
      → Walked parents root depth x (find fuel x parents)
  unfolding find
  find_lem zero x parents {p} forest held enough = absurd (omega (arith, enough))
  find_lem (suc fuel) x parents {p} forest held enough =
      let node = forest x p held in
      elim (Bool-cases (p == x)) [
        | inl same ↦ record {
          left = parents;
          found = ground (arith, held, same, node.self same);
          forest = forest;
          ids = refl;
        }
        | inr other ↦
            let up = Option-cases (get parents p) in
            elim up [
              | inl missing ↦ absurd (ground (arith, node.held, missing))
              | inr (q, up_held) ↦
                  let walk =
                    find_lem fuel p parents forest up_held
                      (omega (arith, node.below other, enough)) in
                  let mine = get_of_ids parents walk.left x walk.ids held in
                  record {
                    left = put walk.left x (root x);
                    found = ground (arith, held, other, walk.found, node.same_root);
                    forest =
                        compress-IsForest walk.left root depth x mine.0 idem walk.forest mine.1
                          (omega (arith, node.below other));
                    ids = ids_of-put walk.left x mine.0 (root x) mine.1 ∙ walk.ids;
                  }
            ]
      ]
