-- ===== src/Dedupe/Clusters/Forest.antt =====
-- What a table of parents stands for: each item has a root, and a height above it that falls along
-- the parents.
use apartment_finder.Prelude.{
  ℕ, ◌+◌, ◌<◌, ◌≡◌, String, true, false, some, is_none, arith, eq_iff, eq_refl, if◌then◌else◌, ◌==◌,
  string_eq, Bool-cases, inl, inr, [], ◌∷◌,
}
use apartment_finder.Prelude.Dict.{get, put, get-put}
use apartment_finder.Dedupe.Clusters.{Parents, ids_of}

-- An item with its parent.
pub record Node (parents : Parents) (root : String → String) (depth : String → ℕ) (x p : String)
    : Type 0 where
  pub same_root : root p ≡ root x
  pub top : get parents (root x) ≡ some (root x)
  pub flat : depth (root x) ≡ 0
  pub self : (p == x) ≡ true → root x ≡ x
  pub below : (p == x) ≡ false → depth p < depth x
  pub held : is_none (get parents p) ≡ false

abbrev pub IsForest : Parents → (String → String) → (String → ℕ) → Type 0
IsForest parents root depth = (x p : String) → get parents x ≡ some p → Node parents root depth x p

pub ids_of-put :
    (parents : Parents) (x p q : String)
    → get parents x ≡ some p
    → ids_of (put parents x q) ≡ ids_of parents
unfolding get put
ids_of-put [] x p q held = cc
ids_of-put ((y, v) ∷ parents) x p q held = ground (arith, ids_of-put parents x p q, eq_iff y x)

-- Pointing an item at its root keeps the forest.
pub compress-IsForest :
    (parents : Parents) (root : String → String) (depth : String → ℕ) (x p : String)
    → ((y : String) → root (root y) ≡ root y)
    → IsForest parents root depth
    → get parents x ≡ some p
    → 0 < depth x
    → IsForest (put parents x (root x)) root depth
compress-IsForest parents root depth x p idem forest held high y q found =
    let node = forest x p held in
    let at_y = get-put parents x y (root x) in
    let at_top = get-put parents x (root x) (root x) in
    elim (Bool-cases (x == y)) [
      | inl same ↦
          let e : x ≡ y = (eq_iff x y).0 same in
          let q_root : root x ≡ q = ground (arith, found, at_y, same) in
          record {
            same_root = ground (arith, e, q_root, idem x);
            top = ground (arith, e, at_top, node.top);
            flat = ground (arith, e, node.flat);
            self = λ t. ground (arith, e, q_root, eq_iff q y, t);
            below = λ f. ground (arith, e, q_root, node.flat, high);
            held = ground (arith, q_root, at_top, node.top);
          }
      | inr other ↦
          let before : get parents y ≡ some q = ground (arith, found, at_y, other) in
          let old = forest y q before in
          record {
            same_root = old.same_root;
            top =
                ground
                  (arith, get-put parents x (root y) (root x), old.top, eq_iff x (root y), idem y);
            flat = old.flat;
            self = old.self;
            below = old.below;
            held = ground (arith, get-put parents x q (root x), old.held);
          }
    ]

-- The roots and the heights after the tree of `hi` has been hung below `lo`.
abbrev pub relabel : String → String → (String → String) → String → String
relabel lo hi root y = if root y == hi then lo else root y

abbrev pub raise : String → (String → String) → (String → ℕ) → String → ℕ
raise hi root depth y = if root y == hi then depth y + 1 else depth y

pub attach-IsForest :
    (parents : Parents) (root : String → String) (depth : String → ℕ) (lo hi : String)
    → IsForest parents root depth
    → get parents lo ≡ some lo
    → get parents hi ≡ some hi
    → (lo == hi) ≡ false
    → IsForest (put parents hi lo) (relabel lo hi root) (raise hi root depth)
attach-IsForest parents root depth lo hi forest lo_top hi_top apart y q found =
    let low = forest lo lo lo_top in
    let high = forest hi hi hi_top in
    let lo_root : root lo ≡ lo = low.self (eq_refl lo) in
    let hi_root : root hi ≡ hi = high.self (eq_refl hi) in
    let at_y = get-put parents hi y lo in
    elim (Bool-cases (hi == y)) [
      | inl same ↦
          let e : hi ≡ y = (eq_iff hi y).0 same in
          let q_lo : lo ≡ q = ground (arith, found, at_y, same) in
          let y_root : root y ≡ hi = ground (arith, e, hi_root) in
          let q_root : root q ≡ lo = ground (arith, q_lo, lo_root) in
          record {
            same_root = ground (arith, y_root, q_root, apart, eq_refl hi);
            top = ground (arith, y_root, eq_refl hi, get-put parents hi lo lo, lo_top);
            flat = ground (arith, y_root, eq_refl hi, lo_root, apart, low.flat);
            self = λ t. ground (arith, e, q_lo, apart, eq_iff q y, eq_refl hi, t);
            below = λ f. ground (arith, y_root, q_root, apart, eq_refl hi, q_lo, lo_root, low.flat);
            held = ground (arith, q_lo, get-put parents hi lo lo, lo_top);
          }
      | inr other ↦
          let before : get parents y ≡ some q = ground (arith, found, at_y, other) in
          let old = forest y q before in
          let q_same = old.same_root in
          record {
            same_root = ground (arith, q_same);
            top = ground (
              arith,
              get-put parents hi lo lo,
              get-put parents hi (root y) lo,
              lo_top,
              old.top,
              eq_iff hi (root y),
              eq_iff (root y) hi,
            );
            flat = ground (
              arith,
              q_same,
              lo_root,
              apart,
              low.flat,
              old.flat,
              forest (root y) (root y) old.top,
              eq_iff (root (root y)) hi,
              eq_iff (root y) hi,
              eq_refl (root y),
            );
            self = λ t.
                ground (arith, old.self t, other, eq_iff y hi, eq_iff hi y, eq_iff (root y) hi);
            below = λ f. ground (arith, q_same, old.below f);
            held = ground (arith, get-put parents hi q lo, old.held);
          }
    ]
