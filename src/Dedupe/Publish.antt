-- ===== src/Dedupe/Publish.antt =====
-- The changes that CanonicalizationService of services/dedupe/service.py makes out of the old and the
-- new canonical fields. Python's `==` and `str` of a value and the ids of changes stay open.
pub mod News
use apartment_finder.Prelude.{
  is_none, keep, if◌then◌else◌, ◌++◌, map, ◌∷◌, ℕ, List, Eq, Bool, Option, String, true, false,
  none, some, [], string_eq,
}
use apartment_finder.Prelude.Dict.{get, Dict}
use apartment_finder.Dedupe.Canonical.{ListingInput, canonical_fields, Cluster, CanonicalField}
use apartment_finder.Dedupe.Changes.{record_change, ListingChangeStore, ListingChange}
use apartment_finder.Prelude.Order.{sort_by, Order, text_order, pair_order}
use apartment_finder.Common.Json.{Json, null}

abbrev pub Canonicalized : Type 0 → Type 0
Canonicalized Score = Dict String (CanonicalField Score) × (List ListingChange × ListingChangeStore)

abbrev pub if_new : Bool → ListingChange → List ListingChange → List ListingChange
if_new true change changes = change ∷ changes
if_new false change changes = changes

abbrev pub change_order : (Json → String) → ListingChange → String × (String × String)
change_order show_json change =
    (change.field_path, (show_json change.old_value_json, show_json change.new_value_json))

module _ {Score : Type 0} where
  -- `all_fields`: the paths of both, in order, each once.
  unfoldable pub all_fields :
      Dict String (CanonicalField Score) → Dict String (CanonicalField Score) → List String
  all_fields previous canonical =
      sort_by (λ path. path)
        (map (λ kv. kv.0) previous
          ++ keep (λ path. is_none (get previous path)) (map (λ kv. kv.0) canonical))

  abbrev pub value_of : Option (CanonicalField Score) → Json
  value_of none = null
  value_of (some f) = f.value_json

  -- `changed_at`; a path of `all_fields` has one of the two fields.
  abbrev pub changed_at : Option (CanonicalField Score) → Option (CanonicalField Score) → ℕ
  changed_at old (some new) = new.observed_at
  changed_at (some old) none = old.observed_at
  changed_at none none = 0

module _ {Score : Type 0} (same : Json → Json → Bool) (show_json : Json → String)
    (change_id : String → String → Json → Json → String) where
  abbrev pub change_of :
      Cluster
      → String
      → Option (CanonicalField Score)
      → Option (CanonicalField Score)
      → ListingChange
  change_of cluster field_path old new = record {
    change_id = change_id cluster.cluster_id field_path (value_of old) (value_of new);
    listing_id = cluster.cluster_id;
    field_path = field_path;
    old_value_json = value_of old;
    new_value_json = value_of new;
    changed_at = changed_at old new;
  }

  -- The changes that are new to the store, and the store after them.
  unfoldable pub record_changes :
      Cluster
      → Dict String (CanonicalField Score)
      → Dict String (CanonicalField Score)
      → List String
      → ListingChangeStore
      → List ListingChange × ListingChangeStore
  record_changes cluster previous canonical [] store = ([], store)
  record_changes cluster previous canonical (path ∷ paths) store =
      let old = get previous path in
      let new = get canonical path in
      let change = change_of cluster path old new in
      let (is_new, store') = record_change change store in
      let equal = same (value_of old) (value_of new) in
      let rest =
        record_changes cluster previous canonical paths (if equal then store else store') in
      (if equal then rest.0 else if_new is_new change rest.0, rest.1)

  abbrev pub with_changes :
      Cluster
      → Dict String (CanonicalField Score)
      → Dict String (CanonicalField Score)
      → ListingChangeStore
      → Canonicalized Score
  with_changes cluster previous canonical store =
      let (changes, store') =
        record_changes cluster previous canonical (all_fields previous canonical) store in
      (
        canonical,
        (sort_by {K = String × (String × String)} (change_order show_json) changes, store'),
      )

module _ {Score : Type 0} ⦃o : Order Score⦄ ⦃e : Eq Score⦄ (no_trust : Score)
    (to_score : String → Score) (source_trust : Dict String Score) (same : Json → Json → Bool)
    (show_json : Json → String) (change_id : String → String → Json → Json → String) where
  unfoldable pub canonicalize :
      Cluster
      → List ListingInput
      → Dict String (CanonicalField Score)
      → ListingChangeStore
      → Option (Canonicalized Score)
  unfolding canonical_fields record_changes all_fields record_change
  canonicalize cluster inputs previous store =
      elim (canonical_fields no_trust to_score source_trust cluster inputs) [
        | none ↦ none
        | some canonical ↦
            some (with_changes same show_json change_id cluster previous canonical store)
      ]
