-- ===== src/Prelude/Dict.antt =====
-- Python's `dict`: an association list in insertion order, a write to an old key keeping its place.
use mathlib.Core.Path.{◌≡◌, refl}
use mathlib.Core.Bool.{false}
use mathlib.Core.Option.{Option, none, some}
use mathlib.Core.List.{List, [], ◌∷◌, map}
use native.Mathlib.Omega.{arith}
use apartment_finder.Prelude.Tests.{if◌then◌else◌}
use apartment_finder.Prelude.Keys.{Eq, ◌==◌}

abbrev pub Dict : Type 0 → Type 0 → Type 0
Dict K V = List (K × V)

module _ {K V : Type 0} ⦃e : Eq K⦄ where
  -- `d.get(k)`
  unfoldable pub get : Dict K V → K → Option V
  get [] k = none
  get ((j, v) ∷ d) k = if j == k then some v else get d k

  -- `d[k] = v`
  unfoldable pub put : Dict K V → K → V → Dict K V
  put [] k v = (k, v) ∷ []
  put ((j, w) ∷ d) k v = if j == k then (j, v) ∷ d else (j, w) ∷ put d k v

  pub get-put :
      (d : Dict K V) (k j : K) (v : V) → get (put d k v) j ≡ (if k == j then some v else get d j)
  unfolding get put
  get-put [] k j v = refl
  get-put ((i, w) ∷ d) k j v =
      ground (arith, e.beq_iff k j, e.beq_iff i k, e.beq_iff i j, get-put d k j v)

  pub get-put_self : (d : Dict K V) (k : K) (v : V) → get (put d k v) k ≡ some v
  get-put_self d k v = ground (arith, get-put d k k v, e.beq_iff k k)

  pub get-put_ne : (d : Dict K V) (k j : K) (v : V) → (k == j) ≡ false → get (put d k v) j ≡ get d j
  get-put_ne d k j v h = ground (arith, get-put d k j v)

  -- A predicate on every entry that can be found.
  abbrev pub Every : (K → V → Type 0) → Dict K V → Type 0
  Every P d = (k : K) (v : V) → get d k ≡ some v → P k v

  pub put-Every :
      (P : K → V → Type 0) (d : Dict K V) (k : K) (v : V) → Every P d → P k v → Every P (put d k v)
  put-Every P d k v h p j w found = ground (arith, get-put d k j v, h j w, e.beq_iff k j)

-- `d.values()`
abbrev pub values : {K V : Type 0} → Dict K V → List V
values = map (λ kv. kv.1)
