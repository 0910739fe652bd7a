-- ===== src/Dedupe/Changes.antt =====
-- ListingChange of services/dedupe/models.py, and ListingChangeStore of services/dedupe/service.py.
use apartment_finder.Prelude.{ℕ, String, Bool, true, false, is_none, if◌then◌else◌, string_eq}
use apartment_finder.Prelude.Dict.{Dict, get, put}
use apartment_finder.Common.Json.{Json}

pub record ListingChange : Type 0 where
  pub change_id : String
  pub listing_id : String
  pub field_path : String
  pub old_value_json : Json
  pub new_value_json : Json
  pub changed_at : ℕ

abbrev pub ListingChangeStore : Type 0
ListingChangeStore = Dict String ListingChange

-- Whether the change is new; a known one is not stored again.
unfoldable pub record_change : ListingChange → ListingChangeStore → Bool × ListingChangeStore
record_change change changes =
    if is_none (get changes change.change_id)
    then (true, put changes change.change_id change)
    else (false, changes)
