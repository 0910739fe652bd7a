-- ===== src/SnapshotStore/Service.antt =====
-- services/snapshot_store/service.py. `sha256_text` is the hash of services/common/hashes.py, made
-- by hashlib; `fresh` is what `str(uuid4())` returns.
use apartment_finder.Prelude.{
  String, true, not, Option, none, some, [], ◌∷◌, if◌then◌else◌, ◌==◌, string_eq,
}
use apartment_finder.Prelude.Result.{Result, ok, err, raise_if, ◌>>=◌, ◌>>◌}
use apartment_finder.Common.Text.{truthy}
use apartment_finder.SnapshotStore.Repository.{
  Mapping, SnapshotCreateRequest, SnapshotRecord, SnapshotRepository, add, get_by_id,
}

pub data StoreError : Type 0 where
  value_error : String → StoreError
  key_error : String → StoreError

-- `a or b` on an optional dictionary.
abbrev pub mapping_or : Option Mapping → Mapping → Mapping
mapping_or none b = b
mapping_or (some []) b = b
mapping_or (some (e ∷ d)) b = e ∷ d

module _ (sha256_text : String → String) where
  abbrev pub hash_of_content : Option String → Result StoreError String
  hash_of_content none = err (value_error "content_hash is required when raw_content is missing")
  hash_of_content (some raw_content) = ok (sha256_text raw_content)

  -- The hash that is given, or that of the content. The code's second test, for a hash without
  -- content, sets what is set already.
  abbrev pub content_hash_for : Option String → Option String → Result StoreError String
  content_hash_for none raw_content = hash_of_content raw_content
  content_hash_for (some given) raw_content =
      if truthy given then ok given else hash_of_content raw_content

  abbrev pub new_record : String → SnapshotCreateRequest → String → SnapshotRecord
  new_record fresh request content_hash = record {
    snapshot_id = fresh;
    source_id = request.source_id;
    url = request.url;
    fetched_at = request.fetched_at;
    http_status = request.http_status;
    content_hash = content_hash;
    formats = request.formats;
    storage_refs = mapping_or request.storage_refs (mapping_or request.raw_refs []);
    change_tracking = request.change_tracking;
    raw_metadata = request.raw_metadata;
    immutable = true;
  }

  abbrev pub stored :
      String
      → SnapshotCreateRequest
      → SnapshotRepository
      → String
      → SnapshotRecord × SnapshotRepository
  stored fresh request r content_hash =
      (new_record fresh request content_hash, add (new_record fresh request content_hash) r)

  unfoldable pub create_snapshot :
      String
      → SnapshotCreateRequest
      → SnapshotRepository
      → Result StoreError (SnapshotRecord × SnapshotRepository)
  create_snapshot fresh request r = do
    raise_if (not (request.schema_version == "v1")) (value_error "schema_version must be v1")
    content_hash ← content_hash_for request.content_hash request.raw_content
    ok (stored fresh request r content_hash)

abbrev pub or_not_found : Option SnapshotRecord → Result StoreError SnapshotRecord
or_not_found none = err (key_error "snapshot not found")
or_not_found (some snapshot) = ok snapshot

unfoldable pub get_snapshot : SnapshotRepository → String → Result StoreError SnapshotRecord
unfolding get_by_id
get_snapshot r snapshot_id = or_not_found (get_by_id r snapshot_id)
