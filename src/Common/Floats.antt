-- ===== src/Common/Floats.antt =====
-- What the source does with floats. They are any type with an order that is total, so that a float
-- that is not a number is not modelled, and with these operations, of which nothing is assumed.
use apartment_finder.Prelude.{ℕ, String, Bool, not, ◌&&◌, if◌then◌else◌}
use apartment_finder.Prelude.Order.{Order}

pub record Floats (F : Type 0) : Type 0 where
  pub literal : String → F
  pub plus : F → F → F
  pub minus : F → F → F
  pub times : F → F → F
  pub over : F → F → F
  pub square_root : F → F
  pub of_nat : ℕ → F
  -- `round(x, 4)`
  pub round4 : F → F

module _ {F : Type 0} ⦃o : Order F⦄ where
  -- `a < b`
  abbrev pub is_below : F → F → Bool
  is_below a b = not (o.le? b a)

  -- `max(a, b)`, which is `a` where neither is greater.
  abbrev pub larger : F → F → F
  larger a b = if is_below a b then b else a

  -- `a == b`
  abbrev pub is_same : F → F → Bool
  is_same a b = o.le? a b && o.le? b a
