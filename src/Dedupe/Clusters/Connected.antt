-- ===== src/Dedupe/Clusters/Connected.antt =====
-- The listings that automatic merges connect, as a relation, and what the merges make of the forest.
use apartment_finder.Prelude.{
  ℕ, ◌+◌, ◌≤◌, ◌<◌, ◌≡◌, sym, ◌∙◌, String, false, Option, some, arith, eq_iff, if◌then◌else◌, ◌==◌,
  string_eq, Bool-cases, inl, inr, ap,
}
use apartment_finder.Prelude.Dict.{get, put}
use apartment_finder.Prelude.Order.{text_order}
use apartment_finder.Dedupe.Clusters.{ids_of, Parents, union, text_ltb}
use apartment_finder.Dedupe.Clusters.Forest.{IsForest, ids_of-put, relabel, raise, attach-IsForest}
use apartment_finder.Dedupe.Clusters.Walk.{find_lem, get_of_ids}

-- The least equivalence that contains a relation.
pub data Linked (E : String → String → Type 0) : String → String → Type 0 where
  edge : {x y : String} → E x y → Linked E x y
  alone : {x : String} → Linked E x x
  flip : {x y : String} → Linked E x y → Linked E y x
  join : {x y z : String} → Linked E x y → Linked E y z → Linked E x z

-- The table of parents after some merges: `root` and `depth` describe it, and items with one root are
-- linked.
pub record Solved (E : String → String → Type 0) (height : ℕ) (parents : Parents)
    (root : String → String) (depth : String → ℕ) : Type 0 where
  pub forest : IsForest parents root depth
  pub idem : (y : String) → root (root y) ≡ root y
  pub bound : (y : String) → depth y ≤ height
  pub sound : (x y : String) → root x ≡ root y → Linked E x y

-- Hanging one of two roots below the other, for two linked items.
module _ (E : String → String → Type 0) where
  attach-Solved :
      (height : ℕ) (parents : Parents) (root : String → String) (depth : String → ℕ)
      (lo hi : String)
      → Solved E height parents root depth
      → get parents lo ≡ some lo
      → get parents hi ≡ some hi
      → root lo ≡ lo
      → root hi ≡ hi
      → (lo == hi) ≡ false
      → Linked E lo hi
      → Solved E (height + 1) (put parents hi lo) (relabel lo hi root) (raise hi root depth)
  attach-Solved height parents root depth lo hi v lo_top hi_top lo_root hi_root apart linked =
      record {
        forest = attach-IsForest parents root depth lo hi v.forest lo_top hi_top apart;
        idem = λ y. ground (arith, v.idem y, lo_root, hi_root, eq_iff (root y) hi);
        bound = λ y. ground (arith, v.bound y);
        sound = λ x y e. elim (Bool-cases (root x == hi)) [
          | inl x_high ↦ elim (Bool-cases (root y == hi)) [
            | inl y_high ↦
                v.sound x y ((eq_iff (root x) hi).0 x_high ∙ sym ((eq_iff (root y) hi).0 y_high))
            | inr y_low ↦
                join (v.sound x hi ((eq_iff (root x) hi).0 x_high ∙ sym hi_root))
                  (join (flip linked) (v.sound lo y (lo_root ∙ (ground (arith, e, x_high, y_low)))))
          ]
          | inr x_low ↦ elim (Bool-cases (root y == hi)) [
            | inl y_high ↦
                join (v.sound x lo (ground (arith, e, x_low, y_high, lo_root)))
                  (join linked (v.sound hi y (hi_root ∙ sym ((eq_iff (root y) hi).0 y_high))))
            | inr y_low ↦ v.sound x y (ground (arith, e, x_low, y_low))
          ]
        ];
      }

  -- A merge: the two items share a root from then on, and items that shared one still do.
  pub record United (height : ℕ) (parents : Parents) (root : String → String) (left right : String)
      (r : Option Parents) : Type 0 where
    pub after : Parents
    pub new_root : String → String
    pub new_depth : String → ℕ
    pub returned : r ≡ some after
    pub solved : Solved E (height + 1) after new_root new_depth
    pub joined : new_root left ≡ new_root right
    pub kept : (x y : String) → root x ≡ root y → new_root x ≡ new_root y
    pub ids : ids_of after ≡ ids_of parents

  hung :
      (height : ℕ) (parents before : Parents) (root : String → String) (depth : String → ℕ)
      (left right lo hi : String) (r : Option Parents)
      → Solved E height before root depth
      → get before lo ≡ some lo
      → get before hi ≡ some hi
      → root lo ≡ lo
      → root hi ≡ hi
      → (lo == hi) ≡ false
      → Linked E lo hi
      → ids_of before ≡ ids_of parents
      → relabel lo hi root left ≡ relabel lo hi root right
      → r ≡ some (put before hi lo)
      → United height parents root left right r
  hung height parents before root depth left right lo hi r v lo_top hi_top lo_root hi_root apart
        linked ids joined e =
      record {
        after = put before hi lo;
        new_root = relabel lo hi root;
        new_depth = raise hi root depth;
        returned = e;
        solved =
            attach-Solved height before root depth lo hi v lo_top hi_top lo_root hi_root apart
              linked;
        joined = joined;
        kept = λ x y same_root. ap (λ (z : String). if z == hi then lo else z) same_root;
        ids = ids_of-put before hi hi lo hi_top ∙ ids;
      }

  pub union_lem :
      (fuel height : ℕ) (parents : Parents) (root : String → String) (depth : String → ℕ)
      (left right : String) {p q : String}
      → Solved E height parents root depth
      → height < fuel
      → get parents left ≡ some p
      → get parents right ≡ some q
      → E left right
      → United height parents root left right (union fuel left right parents)
  unfolding union
  union_lem fuel height parents root depth left right v enough left_held right_held e =
      let one =
        find_lem root depth v.idem fuel left parents v.forest left_held
          (omega (arith, v.bound left, enough)) in
      let right_one = get_of_ids parents one.left right one.ids right_held in
      let two =
        find_lem root depth v.idem fuel right one.left one.forest right_one.1
          (omega (arith, v.bound right, enough)) in
      let ids = two.ids ∙ one.ids in
      let before : Solved E height two.left root depth = record {
        forest = two.forest;
        idem = v.idem;
        bound = v.bound;
        sound = v.sound;
      } in
      let left_two = get_of_ids parents two.left left ids left_held in
      let right_two = get_of_ids parents two.left right ids right_held in
      let a_top = (two.forest left left_two.0 left_two.1).top in
      let b_top = (two.forest right right_two.0 right_two.1).top in
      let linked : Linked E (root left) (root right) =
        join (v.sound (root left) left (v.idem left))
          (join (edge e) (v.sound right (root right) (sym (v.idem right)))) in
      elim (Bool-cases (root left == root right)) [
        | inl same ↦ record {
          after = two.left;
          new_root = root;
          new_depth = depth;
          returned = ground (arith, one.found, two.found, same);
          solved = record {
            forest = two.forest;
            idem = v.idem;
            bound = λ y. omega (arith, v.bound y);
            sound = v.sound;
          };
          joined = (eq_iff (root left) (root right)).0 same;
          kept = λ x y h. h;
          ids = ids;
        }
        | inr apart ↦ elim (Bool-cases (text_ltb (root left) (root right))) [
          | inl low ↦
              hung height parents two.left root depth left right (root left) (root right) _ before
                a_top b_top (v.idem left) (v.idem right) apart linked ids
                (ground (arith, apart, eq_iff (root right) (root right)))
                (ground (arith, one.found, two.found, apart, low))
          | inr high ↦
              hung height parents two.left root depth left right (root right) (root left) _ before
                b_top a_top (v.idem right) (v.idem left)
                (ground
                  (arith, apart, eq_iff (root left) (root right), eq_iff (root right) (root left)))
                (flip linked) ids
                (ground (
                  arith,
                  apart,
                  eq_iff (root left) (root left),
                  eq_iff (root left) (root right),
                  eq_iff (root right) (root left),
                ))
                (ground (arith, one.found, two.found, apart, high))
        ]
      ]
