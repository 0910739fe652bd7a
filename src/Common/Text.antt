-- ===== src/Common/Text.antt =====
-- Truthiness of texts, as in `a or b` and `if not a`.
use apartment_finder.Prelude.{
  String, Option, none, some, Bool, not, if◌then◌else◌, ◌==◌, string_eq, ℕ, List, [], ◌∷◌, true,
  false, nat_eq,
}
use Prim.Native.Char.{Char, code}

-- `bool(s)`
abbrev pub truthy : String → Bool
truthy s = not (s == "")

-- `a or b` on an optional text.
abbrev pub text_or : Option String → String → String
text_or none b = b
text_or (some a) b = if truthy a then a else b

-- `t in texts`
unfoldable pub is_in : String → List String → Bool
is_in t [] = false
is_in t (s ∷ texts) = if s == t then true else is_in t texts

-- `text.replace(old, new)` for one character each, by their codes.
unfoldable pub replace : ℕ → Char → String → String
replace old new String.[] = String.[]
replace old new (String.◌∷◌ c s) = String.◌∷◌ (if code c == old then new else c) (replace old new s)

-- The text up to the first separator, and the parts after it.
abbrev pub split_step : Bool → Char → String × List String → String × List String
split_step true c (part, parts) = ("", part ∷ parts)
split_step false c (part, parts) = (String.◌∷◌ c part, parts)

unfoldable pub split_parts : ℕ → String → String × List String
split_parts separator String.[] = ("", [])
split_parts separator (String.◌∷◌ c s) =
    split_step (code c == separator) c (split_parts separator s)

-- `text.split(separator)`, for one character.
unfoldable pub split : ℕ → String → List String
unfolding split_parts
split separator s = (split_parts separator s).0 ∷ (split_parts separator s).1
