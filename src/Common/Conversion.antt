-- ===== src/Common/Conversion.antt =====
-- What `int(x)` or `float(x)` comes to. The code catches the KeyError of a missing `x`, the TypeError
-- and the ValueError together, in most places; the OverflowError it catches nowhere.
use apartment_finder.Prelude.{Bool, true, false, Option, none, some}

pub data Conversion (A : Type 0) : Type 0 where
  converted : A → Conversion A
  unreadable : Conversion A
  overflowing : Conversion A

-- One conversion, and then another one.
abbrev pub both : {A B : Type 0} → Conversion A → Conversion B → Conversion (A × B)
both (converted a) (converted b) = converted (a, b)
both (converted a) unreadable = unreadable
both (converted a) overflowing = overflowing
both unreadable second = unreadable
both overflowing second = overflowing

-- The answer, where an exception of either kind leaves the function.
abbrev pub answered : {A : Type 0} → Conversion A → Option A
answered (converted a) = some a
answered unreadable = none
answered overflowing = none

abbrev pub is_overflowing : {A : Type 0} → Conversion A → Bool
is_overflowing (converted a) = false
is_overflowing unreadable = false
is_overflowing overflowing = true
