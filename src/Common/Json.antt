-- ===== src/Common/Json.antt =====
-- The values that a `Dict[str, Any]` holds.
use apartment_finder.Prelude.{
  String, Bool, true, false, Option, none, some, List, [], ◌∷◌, ◌==◌, string_eq, if◌then◌else◌,
}
use apartment_finder.Common.Text.{truthy}

-- A number is kept as its text, with whether it is other than zero.
mutual
  pub data Json : Type 0 where
    null : Json
    bool : Bool → Json
    number : String → Bool → Json
    text : String → Json
    arr : Items → Json
    obj : Fields → Json

  pub data Items : Type 0 where
    nil : Items
    cons : Json → Items → Items

  pub data Fields : Type 0 where
    end : Fields
    field : String → Json → Fields → Fields

-- `bool(value)`
unfoldable pub is_truthy : Json → Bool
is_truthy null = false
is_truthy (bool b) = b
is_truthy (number t nonzero) = nonzero
is_truthy (text t) = truthy t
is_truthy (arr nil) = false
is_truthy (arr (cons x xs)) = true
is_truthy (obj end) = false
is_truthy (obj (field k v fs)) = true

-- `mapping.get(k)`
unfoldable pub get_field : Fields → String → Option Json
get_field end k = none
get_field (field j v fs) k = if j == k then some v else get_field fs k

abbrev pub keys : Fields → List String
keys end = []
keys (field k v fs) = k ∷ keys fs

-- `None` for a missing text.
abbrev pub optional_text : Option String → Json
optional_text none = null
optional_text (some t) = text t

-- `payload.get(k)`, which is `None` for a missing key.
abbrev pub or_null : Option Json → Json
or_null none = null
or_null (some j) = j
