-- ===== src/Dedupe/Publish/News.antt =====
-- Only what changed, and what is new to the store, is reported.
use apartment_finder.Prelude.{
  none, false, ◌≡◌, All, List, Bool, refl, String, true, [], ◌∷◌, All-mono, if◌then◌else◌,
  string_eq, arith,
}
use apartment_finder.Prelude.Dict.{get, Dict, get-put}
use apartment_finder.Dedupe.Canonical.{CanonicalField, Cluster}
use apartment_finder.Dedupe.Changes.{ListingChangeStore, ListingChange, record_change}
use apartment_finder.Dedupe.Publish.{record_changes, change_of, value_of, if_new}
use apartment_finder.Common.Json.{Json}

grown :
    (equal : Bool) (change : ListingChange) (store : ListingChangeStore) (k : String)
    → get (if equal then store else (record_change change store).1) k ≡ none
    → get store k ≡ none
unfolding record_change
grown equal change store k missing = ground (arith, get-put store change.change_id k change)

unseen :
    (change : ListingChange) (store : ListingChangeStore)
    → (record_change change store).0 ≡ true
    → get store change.change_id ≡ none
unfolding record_change
unseen change store fresh = ground arith

added-All :
    (P : ListingChange → Type 0) (equal is_new : Bool) (change : ListingChange)
    (rest : List ListingChange)
    → (equal ≡ false → is_new ≡ true → P change)
    → All P rest
    → All P (if equal then rest else if_new is_new change rest)
added-All P true is_new change rest h all = all
added-All P false true change rest h all = (h refl refl, all)
added-All P false false change rest h all = all

module _ {Score : Type 0} (same : Json → Json → Bool) (show_json : Json → String)
    (change_id : String → String → Json → Json → String) where
  -- Every change that is reported is between two values that differ, and the store had no change
  -- with its id before.
  pub record_changes-All :
      (cluster : Cluster) (previous canonical : Dict String (CanonicalField Score))
      (paths : List String) (store : ListingChangeStore)
      → All
          (λ c. (same c.old_value_json c.new_value_json ≡ false) × (get store c.change_id ≡ none))
          (record_changes same show_json change_id cluster previous canonical paths store).0
  unfolding record_changes
  record_changes-All cluster previous canonical [] store = tt
  record_changes-All cluster previous canonical (path ∷ paths) store =
      let old = get previous path in
      let new = get canonical path in
      let change = change_of same show_json change_id cluster path old new in
      let equal = same (value_of old) (value_of new) in
      let next = if equal then store else (record_change change store).1 in
      let rest =
        All-mono
          (λ c. (same c.old_value_json c.new_value_json ≡ false) × (get next c.change_id ≡ none))
          (λ c. (same c.old_value_json c.new_value_json ≡ false) × (get store c.change_id ≡ none))
          (record_changes same show_json change_id cluster previous canonical paths next).0
          (λ c h. (h.0, grown equal change store c.change_id h.1))
          (record_changes-All cluster previous canonical paths next) in
      added-All
        (λ c. (same c.old_value_json c.new_value_json ≡ false) × (get store c.change_id ≡ none))
        equal (record_change change store).0 change _
        (λ differ fresh. (differ, unseen change store fresh)) rest
