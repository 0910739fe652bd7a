-- ===== src/Prelude/Order/Defs.antt =====
-- A total order given by its test: of numbers, of texts by code points, of pairs.
use Prim.Native.Nat.{ℕ}
use Prim.Native.Char.{code}
use Prim.Native.String.{String}
use mathlib.Core.Path.{◌≡◌, refl}
use mathlib.Core.Bool.{Bool, true, false}
use mathlib.Core.List.{List, [], ◌∷◌}
use native.Mathlib.Omega.{arith}
use apartment_finder.Prelude.Tests.{leb, ltb, if◌then◌else◌}

pub record Order (K : Type 0) : Type 0 where
  pub le? : K → K → Bool
  pub le_trans : (a b c : K) → le? a b ≡ true → le? b c ≡ true → le? a c ≡ true
  pub le_total : (a b : K) → le? a b ≡ false → le? b a ≡ true

pub leb_trans : (a b c : ℕ) → leb a b ≡ true → leb b c ≡ true → leb a c ≡ true
leb_trans a b c h k = ground arith

pub leb_total : (a b : ℕ) → leb a b ≡ false → leb b a ≡ true
leb_total a b h = ground arith

instance abbrev pub nat_order : Order ℕ
nat_order = record { le? = leb; le_trans = leb_trans; le_total = leb_total }

-- Python compares texts by code points, from the left.
unfoldable pub text_leb : String → String → Bool
text_leb String.[] t = true
text_leb (String.◌∷◌ c s) String.[] = false
text_leb (String.◌∷◌ c s) (String.◌∷◌ d t) =
    let rest = text_leb s t in
    if ltb (code c) (code d) then true else if ltb (code d) (code c) then false else rest

pub text_leb_trans :
    (a b c : String) → text_leb a b ≡ true → text_leb b c ≡ true → text_leb a c ≡ true
unfolding text_leb
text_leb_trans String.[] b c h k = refl
text_leb_trans (String.◌∷◌ x a) String.[] c h k = ground arith
text_leb_trans (String.◌∷◌ x a) (String.◌∷◌ y b) String.[] h k = ground arith
text_leb_trans (String.◌∷◌ x a) (String.◌∷◌ y b) (String.◌∷◌ z c) h k =
    ground (arith, text_leb_trans a b c)

pub text_leb_total : (a b : String) → text_leb a b ≡ false → text_leb b a ≡ true
unfolding text_leb
text_leb_total String.[] b h = ground arith
text_leb_total (String.◌∷◌ x a) String.[] h = refl
text_leb_total (String.◌∷◌ x a) (String.◌∷◌ y b) h = ground (arith, text_leb_total a b)

instance abbrev pub text_order : Order String
text_order = record { le? = text_leb; le_trans = text_leb_trans; le_total = text_leb_total }

module _ {A B : Type 0} ⦃o : Order A⦄ ⦃p : Order B⦄ where
  abbrev pub pair_leb : A × B → A × B → Bool
  pair_leb (a, b) (c, d) = if o.le? a c then (if o.le? c a then p.le? b d else true) else false

  pub pair_leb_trans :
      (x y z : A × B) → pair_leb x y ≡ true → pair_leb y z ≡ true → pair_leb x z ≡ true
  pair_leb_trans (a, b) (c, d) (e, f) h k =
      ground (arith, o.le_trans a c e, o.le_trans c e a, o.le_trans e a c, p.le_trans b d f)

  pub pair_leb_total : (x y : A × B) → pair_leb x y ≡ false → pair_leb y x ≡ true
  pair_leb_total (a, b) (c, d) h = ground (arith, o.le_total a c, p.le_total b d)

  instance abbrev pub pair_order : Order (A × B)
  pair_order = record { le? = pair_leb; le_trans = pair_leb_trans; le_total = pair_leb_total }

module _ {A : Type 0} ⦃o : Order A⦄ where
  -- Python compares lists item by item, from the left.
  unfoldable pub list_leb : List A → List A → Bool
  list_leb [] ys = true
  list_leb (x ∷ xs) [] = false
  list_leb (x ∷ xs) (y ∷ ys) =
      let rest = list_leb xs ys in if o.le? x y then (if o.le? y x then rest else true) else false

  pub list_leb_trans :
      (xs ys zs : List A) → list_leb xs ys ≡ true → list_leb ys zs ≡ true → list_leb xs zs ≡ true
  unfolding list_leb
  list_leb_trans [] ys zs h k = refl
  list_leb_trans (x ∷ xs) [] zs h k = ground arith
  list_leb_trans (x ∷ xs) (y ∷ ys) [] h k = ground arith
  list_leb_trans (x ∷ xs) (y ∷ ys) (z ∷ zs) h k =
      ground (arith, o.le_trans x y z, o.le_trans y z x, o.le_trans z x y, list_leb_trans xs ys zs)

  pub list_leb_total : (xs ys : List A) → list_leb xs ys ≡ false → list_leb ys xs ≡ true
  unfolding list_leb
  list_leb_total [] ys h = ground arith
  list_leb_total (x ∷ xs) [] h = refl
  list_leb_total (x ∷ xs) (y ∷ ys) h = ground (arith, o.le_total x y, list_leb_total xs ys)

  instance abbrev pub list_order : Order (List A)
  list_order = record { le? = list_leb; le_trans = list_leb_trans; le_total = list_leb_total }

-- The order turned round, which a key `-x` sorts by.
pub record Desc (K : Type 0) : Type 0 where
  pub key : K

module _ {K : Type 0} ⦃o : Order K⦄ where
  abbrev pub desc_leb : Desc K → Desc K → Bool
  desc_leb a b = o.le? b.key a.key

  pub desc_leb_trans :
      (a b c : Desc K) → desc_leb a b ≡ true → desc_leb b c ≡ true → desc_leb a c ≡ true
  desc_leb_trans a b c h k = o.le_trans c.key b.key a.key k h

  pub desc_leb_total : (a b : Desc K) → desc_leb a b ≡ false → desc_leb b a ≡ true
  desc_leb_total a b h = o.le_total b.key a.key h

  instance abbrev pub desc_order : Order (Desc K)
  desc_order = record { le? = desc_leb; le_trans = desc_leb_trans; le_total = desc_leb_total }
