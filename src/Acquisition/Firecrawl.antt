-- ===== src/Acquisition/Firecrawl.antt =====
-- services/acquisition/firecrawl_adapter.py. The client is the Firecrawl service: a function from
-- requests to responses or exceptions. `dump` is pydantic's `model_dump`, `hash_of_refs` the hash of
-- a dictionary's JSON.
pub mod Capture
use apartment_finder.Prelude.{
  ℕ, String, Bool, true, false, not, Option, none, some, List, [], ◌∷◌, ◌++◌, ◌==◌, if◌then◌else◌,
  string_eq, or_else, map, is_none,
}
use apartment_finder.Prelude.Dict.{Dict, get}
use apartment_finder.Prelude.Result.{Result, ok, err, raise_if, ◌>>=◌, ◌>>◌}
use apartment_finder.Common.Json.{Json, is_truthy, or_null}
use apartment_finder.Common.Text.{truthy}
use apartment_finder.Acquisition.Models.{Exn, adapter_validation_error, value_error}
use apartment_finder.Acquisition.Validation.{unknown_formats}
use apartment_finder.SnapshotStore.Repository.{
  Mapping, SnapshotCreateRequest, SnapshotRecord, SnapshotRepository,
}
use apartment_finder.SnapshotStore.Service as Store
use apartment_finder.SnapshotStore.Service.{StoreError, create_snapshot}

pub record FirecrawlRequest : Type 0 where
  pub schema_version : String
  pub url : String
  pub formats : Mapping
  pub change_tracking : Option Mapping
  pub metadata : Option Mapping

pub record FirecrawlResponse : Type 0 where
  pub url : String
  pub http_status : ℕ
  pub formats : Mapping
  pub fetched_at : String
  pub content_hash : Option String
  pub change_tracking : Option Mapping
  pub storage_refs : Option Mapping
  pub raw_content : Option String

pub record AdapterLogRecord : Type 0 where
  pub task_id : Option String
  pub request : FirecrawlRequest
  pub response : Option FirecrawlResponse

-- What the adapter writes to: the adapter's log, where it has one, and the snapshots.
pub record AdapterState : Type 0 where
  pub adapter_log : Option (List AdapterLogRecord)
  pub snapshots : SnapshotRepository

-- An optional text or dictionary that counts as true.
abbrev pub truthy_text : Option String → Option String
truthy_text none = none
truthy_text (some t) = if truthy t then some t else none

abbrev pub truthy_mapping : Option Mapping → Option Mapping
truthy_mapping none = none
truthy_mapping (some []) = none
truthy_mapping (some (e ∷ d)) = some (e ∷ d)

-- The first that is there.
abbrev pub first_text : Option String → Result Exn String → Result Exn String
first_text none rest = rest
first_text (some t) rest = ok t

abbrev pub either_mapping : Option Mapping → Option Mapping → Option Mapping
either_mapping none b = b
either_mapping (some a) b = some a

abbrev pub logged_to :
    AdapterLogRecord → Option (List AdapterLogRecord) → Option (List AdapterLogRecord)
logged_to entry none = none
logged_to entry (some log) = some (log ++ entry ∷ [])

abbrev pub from_store : {A : Type 0} → Result StoreError A → Result Exn A
from_store (ok a) = ok a
from_store (err (Store.value_error m)) = err (value_error m)
from_store (err (Store.key_error m)) = err (value_error m)

module _ (show_names : List String → String) (sha256_text : String → String)
    (hash_of_refs : Mapping → String) (dump : FirecrawlResponse → Mapping)
    (client : FirecrawlRequest → Result Exn FirecrawlResponse) where
  abbrev pub check_names : List String → Result Exn (Unit {0})
  check_names [] = ok tt
  check_names (k ∷ ks) = err (adapter_validation_error (show_names (k ∷ ks)))

  unfoldable pub validate_request : FirecrawlRequest → Result Exn (Unit {0})
  unfolding unknown_formats
  validate_request request = do
    raise_if (not (request.schema_version == "v1"))
        (adapter_validation_error "schema_version must be v1")
    raise_if (is_none request.change_tracking)
        (adapter_validation_error "change_tracking is required")
    check_names (unknown_formats (map (λ kv. kv.0) request.formats))
    raise_if (not (is_truthy (or_null (get request.formats "markdown"))))
        (adapter_validation_error "change_tracking requires markdown format")

  abbrev pub hash_of : Option Mapping → Result Exn String
  hash_of none = err (adapter_validation_error "content_hash missing and no raw_content available")
  hash_of (some refs) = ok (hash_of_refs refs)

  abbrev pub content_or : Option String → Result Exn String → Result Exn String
  content_or none rest = rest
  content_or (some content) rest = ok (sha256_text content)

  unfoldable pub fallback_content_hash : FirecrawlResponse → Result Exn String
  fallback_content_hash response = first_text (truthy_text response.content_hash) (
      content_or (truthy_text response.raw_content)
        (hash_of (truthy_mapping response.storage_refs)))

  unfoldable pub write_log :
      Option String → FirecrawlRequest → Option FirecrawlResponse → AdapterState → AdapterState
  write_log task_id request response s = record s {
    adapter_log =
        logged_to (record { task_id = task_id; request = request; response = response })
          s.adapter_log;
  }

  abbrev pub snapshot_request :
      String → FirecrawlRequest → FirecrawlResponse → String → SnapshotCreateRequest
  snapshot_request source_id request response content_hash = record {
    schema_version = "v1";
    source_id = source_id;
    url = response.url;
    fetched_at = response.fetched_at;
    http_status = response.http_status;
    formats = response.formats;
    storage_refs = some (or_else (truthy_mapping response.storage_refs) []);
    raw_refs = none;
    content_hash = some content_hash;
    change_tracking =
        either_mapping (truthy_mapping response.change_tracking) request.change_tracking;
    raw_metadata = some (dump response);
    raw_content = response.raw_content;
  }

  abbrev pub Answer : Type 0
  Answer = Result Exn SnapshotRecord × AdapterState

  -- From the stored snapshot on.
  abbrev pub finish :
      Option String
      → FirecrawlRequest
      → FirecrawlResponse
      → AdapterState
      → Result Exn (SnapshotRecord × SnapshotRepository)
      → Answer
  finish task_id request response s (err e) = (err e, s)
  finish task_id request response s (ok (snapshot, snapshots)) =
      (ok snapshot, write_log task_id request (some response) (record s { snapshots = snapshots }))

  abbrev pub store_hashed :
      String
      → Option String
      → String
      → FirecrawlRequest
      → FirecrawlResponse
      → AdapterState
      → Result Exn String
      → Answer
  store_hashed fresh task_id source_id request response s (err e) = (err e, s)
  store_hashed fresh task_id source_id request response s (ok content_hash) =
      finish task_id request response s (
        from_store (
          create_snapshot sha256_text fresh
            (snapshot_request source_id request response content_hash) s.snapshots))

  abbrev pub store_response :
      String
      → Option String
      → String
      → FirecrawlRequest
      → AdapterState
      → Result Exn FirecrawlResponse
      → Answer
  store_response fresh task_id source_id request s (err e) = (err e, s)
  store_response fresh task_id source_id request s (ok response) =
      store_hashed fresh task_id source_id request response s (fallback_content_hash response)

  abbrev pub fetch_validated :
      String
      → Option String
      → String
      → FirecrawlRequest
      → AdapterState
      → Result Exn (Unit {0})
      → Answer
  fetch_validated fresh task_id source_id request s (err e) = (err e, s)
  fetch_validated fresh task_id source_id request s (ok done) =
      store_response fresh task_id source_id request (write_log task_id request none s)
        (client request)

  unfoldable pub fetch_and_store :
      String → Option String → String → FirecrawlRequest → AdapterState → Answer
  fetch_and_store fresh task_id source_id request s =
      fetch_validated fresh task_id source_id request s (validate_request request)
