-- ===== src/Dedupe/Clusters/Merges.antt =====
-- All the automatic merges of a list of decisions.
use apartment_finder.Prelude.{
  ℕ, suc, ◌+◌, ◌<◌, ◌≡◌, refl, ◌∙◌, String, true, false, Option, some, arith, eq_iff, ◌==◌,
  string_eq, Bool-cases, inl, inr, ◌⊎◌, List, [], ◌∷◌, length, All, All-mono,
}
use apartment_finder.Prelude.Dict.{get}
use apartment_finder.Dedupe.Bands.{PairDecision}
use apartment_finder.Dedupe.Clusters.{ids_of, Parents, union_all, union}
use apartment_finder.Dedupe.Clusters.Walk.{get_of_ids}
use apartment_finder.Dedupe.Clusters.Connected.{Solved, United, union_lem}

abbrev pub IsItem : Parents → String → Type 0
IsItem parents x = (p : String) × (get parents x ≡ some p)

module _ {Score : Type 0} where
  -- Some decision merges the two.
  abbrev pub Merged : List (PairDecision Score) → String → String → Type 0
  Merged [] x y = ⊥
  Merged (d ∷ ds) x y =
      ((d.band ≡ "auto_merge") × (d.left_id ≡ x) × (d.right_id ≡ y)) ⊎ Merged ds x y

  abbrev pub AreItems : Parents → PairDecision Score → Type 0
  AreItems parents d = IsItem parents d.left_id × IsItem parents d.right_id

  pub record Merges (E : String → String → Type 0) (ds : List (PairDecision Score))
      (parents : Parents) (root : String → String) (height : ℕ) (r : Option Parents) : Type 0 where
    pub after : Parents
    pub new_root : String → String
    pub new_depth : String → ℕ
    pub returned : r ≡ some after
    pub solved : Solved E height after new_root new_depth
    pub joined : (x y : String) → Merged ds x y → new_root x ≡ new_root y
    pub kept : (x y : String) → root x ≡ root y → new_root x ≡ new_root y
    pub ids : ids_of after ≡ ids_of parents

  union_all_step :
      (E : String → String → Type 0) (fuel height : ℕ) (d : PairDecision Score)
      (ds : List (PairDecision Score)) (parents : Parents) (root : String → String)
      (u : United E height parents root d.left_id d.right_id
        (union fuel d.left_id d.right_id parents))
      → (d.band == "auto_merge") ≡ true
      → Merges E ds u.after u.new_root (height + suc (length ds)) (union_all fuel ds u.after)
      → Merges E (d ∷ ds) parents root (height + suc (length ds)) (union_all fuel (d ∷ ds) parents)
  unfolding union_all
  union_all_step E fuel height d ds parents root u merge rest = record {
    after = rest.after;
    new_root = rest.new_root;
    new_depth = rest.new_depth;
    returned = ground (arith, merge, u.returned, rest.returned);
    solved = rest.solved;
    joined = λ x y m. elim m [
      | inl (band, l, r) ↦ ground (arith, rest.kept d.left_id d.right_id u.joined, l, r)
      | inr later ↦ rest.joined x y later
    ];
    kept = λ x y e. rest.kept x y (u.kept x y e);
    ids = rest.ids ∙ u.ids;
  }

  union_all_skip :
      (E : String → String → Type 0) (fuel height : ℕ) (d : PairDecision Score)
      (ds : List (PairDecision Score)) (parents : Parents) (root : String → String)
      → (d.band == "auto_merge") ≡ false
      → Merges E ds parents root (height + length ds) (union_all fuel ds parents)
      → Merges E (d ∷ ds) parents root (height + suc (length ds)) (union_all fuel (d ∷ ds) parents)
  unfolding union_all
  union_all_skip E fuel height d ds parents root skip rest = record {
    after = rest.after;
    new_root = rest.new_root;
    new_depth = rest.new_depth;
    returned = ground (arith, skip, rest.returned);
    solved = record {
      forest = rest.solved.forest;
      idem = rest.solved.idem;
      bound = λ y. omega (arith, rest.solved.bound y);
      sound = rest.solved.sound;
    };
    joined = λ x y m. elim m [
      | inl (band, l, r) ↦ absurd (ground (arith, skip, eq_iff d.band "auto_merge", band))
      | inr later ↦ rest.joined x y later
    ];
    kept = rest.kept;
    ids = rest.ids;
  }

  pub union_all_lem :
      (E : String → String → Type 0) (fuel height : ℕ) (ds : List (PairDecision Score))
      (parents : Parents) (root : String → String) (depth : String → ℕ)
      → Solved E height parents root depth
      → height + length ds < fuel
      → All (AreItems parents) ds
      → ((x y : String) → Merged ds x y → E x y)
      → Merges E ds parents root (height + length ds) (union_all fuel ds parents)
  unfolding union_all
  union_all_lem E fuel height [] parents root depth v enough items covers = record {
    after = parents;
    new_root = root;
    new_depth = depth;
    returned = refl;
    solved = record {
      forest = v.forest;
      idem = v.idem;
      bound = λ y. omega (arith, v.bound y);
      sound = v.sound;
    };
    joined = λ x y m. elim m [ ];
    kept = λ x y e. e;
    ids = refl;
  }
  union_all_lem E fuel height (d ∷ ds) parents root depth v enough ((l, r), items) covers =
      elim (Bool-cases (d.band == "auto_merge")) [
        | inl merge ↦
            let band = (eq_iff d.band "auto_merge").0 merge in
            let u =
              union_lem E fuel height parents root depth d.left_id d.right_id v
                (omega (arith, enough)) l.1 r.1
                (covers d.left_id d.right_id (inl (band, refl, refl))) in
            let moved =
              All-mono (AreItems parents) (AreItems u.after) ds
                (λ c i. (
                  get_of_ids parents u.after c.left_id u.ids i.0.1,
                  get_of_ids parents u.after c.right_id u.ids i.1.1,
                ))
                items in
            let rest =
              union_all_lem E fuel (height + 1) ds u.after u.new_root u.new_depth u.solved
                (omega (arith, enough)) moved (λ x y m. covers x y (inr m)) in
            let e : height + 1 + length ds ≡ height + suc (length ds) = omega arith in
            union_all_step E fuel height d ds parents root u merge (rw e at rest)
        | inr skip ↦ union_all_skip E fuel height d ds parents root skip (
            union_all_lem E fuel height ds parents root depth v (omega (arith, enough)) items
              (λ x y m. covers x y (inr m)))
      ]
