-- ===== src/SnapshotStore/Repository.antt =====
-- services/snapshot_store/models.py and repository.py.
use apartment_finder.Prelude.{
  ℕ, String, Bool, Option, none, some, List, [], ◌∷◌, ◌++◌, or_else, keep, string_eq,
}
use apartment_finder.Prelude.Dict.{Dict, get, put, values}
use apartment_finder.Common.Json.{Json}

abbrev pub Mapping : Type 0
Mapping = Dict String Json

pub record SnapshotCreateRequest : Type 0 where
  pub schema_version : String
  pub source_id : String
  pub url : String
  pub fetched_at : String
  pub http_status : ℕ
  pub formats : Mapping
  pub storage_refs : Option Mapping
  pub raw_refs : Option Mapping
  pub content_hash : Option String
  pub change_tracking : Option Mapping
  pub raw_metadata : Option Mapping
  pub raw_content : Option String

pub record SnapshotRecord : Type 0 where
  pub snapshot_id : String
  pub source_id : String
  pub url : String
  pub fetched_at : String
  pub http_status : ℕ
  pub content_hash : String
  pub formats : Mapping
  pub storage_refs : Mapping
  pub change_tracking : Option Mapping
  pub raw_metadata : Option Mapping
  pub immutable : Bool

pub record SnapshotRepository : Type 0 where
  pub snapshots : Dict String SnapshotRecord
  pub hashes : Dict String (List String)

-- `self._by_hash.setdefault(content_hash, [])`
unfoldable pub ids_for : SnapshotRepository → String → List String
ids_for r content_hash = or_else (get r.hashes content_hash) []

unfoldable pub add : SnapshotRecord → SnapshotRepository → SnapshotRepository
unfolding ids_for
add snapshot r = record {
  snapshots = put r.snapshots snapshot.snapshot_id snapshot;
  hashes =
      put r.hashes snapshot.content_hash
        (ids_for r snapshot.content_hash ++ snapshot.snapshot_id ∷ []);
}

unfoldable pub get_by_id : SnapshotRepository → String → Option SnapshotRecord
get_by_id r snapshot_id = get r.snapshots snapshot_id

abbrev pub and_then :
    Option SnapshotRecord → Option (List SnapshotRecord) → Option (List SnapshotRecord)
and_then none rest = none
and_then (some s) none = none
and_then (some s) (some rest) = some (s ∷ rest)

-- `none` is the KeyError of an id with no snapshot.
unfoldable pub snapshots_of : SnapshotRepository → List String → Option (List SnapshotRecord)
snapshots_of r [] = some []
snapshots_of r (sid ∷ sids) = and_then (get r.snapshots sid) (snapshots_of r sids)

unfoldable pub by_hash : SnapshotRepository → String → Option (List SnapshotRecord)
unfolding snapshots_of ids_for
by_hash r content_hash = snapshots_of r (ids_for r content_hash)

-- `same` is Python's `==` of two dictionaries.
unfoldable pub find_by_storage_refs :
    (Mapping → Mapping → Bool) → Mapping → SnapshotRepository → List SnapshotRecord
find_by_storage_refs same storage_refs r =
    keep (λ snapshot. same snapshot.storage_refs storage_refs) (values r.snapshots)
