-- ===== src/Acquisition/Firecrawl/Capture.antt =====
-- What a fetch leaves behind.
use apartment_finder.Prelude.{◌≡◌, String, Option, List, arith}
use apartment_finder.Prelude.Result.{Result, ok}
use apartment_finder.Acquisition.Models.{Exn}
use apartment_finder.SnapshotStore.Repository.{Mapping, SnapshotRecord, add}
use apartment_finder.SnapshotStore.Service.{create_snapshot}
use apartment_finder.Acquisition.Firecrawl.{
  FirecrawlRequest, FirecrawlResponse, AdapterState, validate_request, fetch_and_store, write_log,
}

module _ (show_names : List String → String) (sha256_text : String → String)
    (hash_of_refs : Mapping → String) (dump : FirecrawlResponse → Mapping)
    (client : FirecrawlRequest → Result Exn FirecrawlResponse) where
  -- A fetch that returns a snapshot has passed the checks on the request and had a response from the
  -- client; the snapshot has the response's address and the given source, and it is the one snapshot
  -- that has been added.
  pub fetch_and_store_ok :
      (fresh : String) (task_id : Option String) (source_id : String) (request : FirecrawlRequest)
      (s : AdapterState) {snapshot : SnapshotRecord}
      → let r =
          fetch_and_store show_names sha256_text hash_of_refs dump client fresh task_id source_id
            request s in
        r.0 ≡ ok snapshot
        → (response : FirecrawlResponse) × (validate_request show_names sha256_text hash_of_refs
              dump client request
            ≡ ok tt)
          × (client request ≡ ok response)
          × (snapshot.url ≡ response.url)
          × (snapshot.source_id ≡ source_id)
          × (r.1.snapshots ≡ add snapshot s.snapshots)
  unfolding fetch_and_store create_snapshot write_log
  fetch_and_store_ok fresh task_id source_id request s stored = ground arith
