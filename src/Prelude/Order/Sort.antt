-- ===== src/Prelude/Order/Sort.antt =====
-- `sorted(xs, key=...)` and `xs.sort(key=...)`: the stable sort, as an insertion sort.
use mathlib.Core.Path.{◌≡◌}
use mathlib.Core.Bool.{true}
use mathlib.Core.List.{List, [], ◌∷◌, Perm}
use mathlib.Core.List.Perm
use native.Mathlib.Omega.{arith}
use apartment_finder.Prelude.Tests.{if◌then◌else◌, Bool-cases}
use apartment_finder.Prelude.Lists.{All, All-mono}
use apartment_finder.Prelude.Order.Defs.{Order}
use mathlib.Core.Logic.{inl, inr}

module _ {A K : Type 0} ⦃o : Order K⦄ where
  unfoldable pub insert_by : (A → K) → A → List A → List A
  insert_by key x [] = x ∷ []
  insert_by key x (y ∷ ys) = if o.le? (key x) (key y) then x ∷ y ∷ ys else y ∷ insert_by key x ys

  unfoldable pub sort_by : (A → K) → List A → List A
  unfolding insert_by
  sort_by key [] = []
  sort_by key (x ∷ xs) = insert_by key x (sort_by key xs)

  -- `x` comes no later than `y`.
  abbrev pub Before : (A → K) → A → A → Type 0
  Before key x y = o.le? (key x) (key y) ≡ true

  abbrev pub IsSorted : (A → K) → List A → Type 0
  IsSorted key [] = Unit
  IsSorted key (x ∷ xs) = All (Before key x) xs × IsSorted key xs

  insert_by-All :
      (P : A → Type 0) (key : A → K) (x : A) (ys : List A)
      → P x
      → All P ys
      → All P (insert_by key x ys)
  unfolding insert_by
  insert_by-All P key x [] px h = (px, tt)
  insert_by-All P key x (y ∷ ys) px h = ground (arith, insert_by-All P key x ys px h.1)

  pub insert_by-IsSorted :
      (key : A → K) (x : A) (ys : List A) → IsSorted key ys → IsSorted key (insert_by key x ys)
  unfolding insert_by
  insert_by-IsSorted key x [] h = (tt, tt)
  insert_by-IsSorted key x (y ∷ ys) h = elim (Bool-cases (o.le? (key x) (key y))) [
    | inl le ↦ rw le (
      ((
        le,
        All-mono (Before key y) (Before key x) ys (λ z r. o.le_trans (key x) (key y) (key z) le r)
            h.0,
      )),
      h,
    )
    | inr gt ↦ rw gt (
      insert_by-All (Before key y) key x ys (o.le_total (key x) (key y) gt) h.0,
      insert_by-IsSorted key x ys h.1,
    )
  ]

  pub sort_by-IsSorted : (key : A → K) (xs : List A) → IsSorted key (sort_by key xs)
  unfolding sort_by
  sort_by-IsSorted key [] = tt
  sort_by-IsSorted key (x ∷ xs) =
      insert_by-IsSorted key x (sort_by key xs) (sort_by-IsSorted key xs)

  pub insert_by-perm : (key : A → K) (x : A) (ys : List A) → Perm (insert_by key x ys) (x ∷ ys)
  unfolding insert_by
  insert_by-perm key x [] = Perm.refl (x ∷ [])
  insert_by-perm key x (y ∷ ys) = elim (Bool-cases (o.le? (key x) (key y))) [
    | inl le ↦ rw le (Perm.refl (x ∷ y ∷ ys))
    | inr gt ↦ rw gt (Perm.trans (Perm.cons y (insert_by-perm key x ys)) (Perm.swap x y ys))
  ]

  pub sort_by-perm : (key : A → K) (xs : List A) → Perm (sort_by key xs) xs
  unfolding sort_by
  sort_by-perm key [] = Perm.refl []
  sort_by-perm key (x ∷ xs) =
      Perm.trans (insert_by-perm key x (sort_by key xs)) (Perm.cons x (sort_by-perm key xs))

  pub sort_by-All : (P : A → Type 0) (key : A → K) (xs : List A) → All P xs → All P (sort_by key xs)
  unfolding sort_by
  sort_by-All P key [] h = tt
  sort_by-All P key (x ∷ xs) h =
      insert_by-All P key x (sort_by key xs) h.0 (sort_by-All P key xs h.1)

  All-of_insert_by :
      (P : A → Type 0) (key : A → K) (x : A) (ys : List A)
      → All P (insert_by key x ys)
      → P x × All P ys
  unfolding insert_by
  All-of_insert_by P key x [] h = h
  All-of_insert_by P key x (y ∷ ys) h = elim (Bool-cases (o.le? (key x) (key y))) [
    | inl le ↦ rw le at h
    | inr gt ↦
        let split = rw gt at h in
        let rest = All-of_insert_by P key x ys split.1 in (rest.0, (split.0, rest.1))
  ]

  pub All-of_sort_by :
      (P : A → Type 0) (key : A → K) (xs : List A) → All P (sort_by key xs) → All P xs
  unfolding sort_by
  All-of_sort_by P key [] h = tt
  All-of_sort_by P key (x ∷ xs) h =
      let split = All-of_insert_by P key x (sort_by key xs) h in
      (split.0, All-of_sort_by P key xs split.1)

  -- Sorting what is already sorted changes nothing, so equal keys keep their order.
  insert_by_first :
      (key : A → K) (x : A) (ys : List A) → All (Before key x) ys → insert_by key x ys ≡ x ∷ ys
  unfolding insert_by
  insert_by_first key x [] h = ground arith
  insert_by_first key x (y ∷ ys) h = ground arith

  pub sort_by_of_IsSorted : (key : A → K) (xs : List A) → IsSorted key xs → sort_by key xs ≡ xs
  unfolding sort_by
  sort_by_of_IsSorted key [] h = ground arith
  sort_by_of_IsSorted key (x ∷ xs) h =
      ground (arith, sort_by_of_IsSorted key xs h.1, insert_by_first key x xs h.0)
