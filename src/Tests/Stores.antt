-- ===== src/Tests/Stores.antt =====
-- The theorems on the snapshot store, the fetches and the facts at concrete values.
use apartment_finder.Facts.Located.{IsLocated, add_evidence-IsLocated}
use apartment_finder.Common.Conversion.{Conversion, converted, unreadable}
use apartment_finder.Acquisition.Firecrawl.{
  fallback_content_hash, FirecrawlRequest, FirecrawlResponse, AdapterState, validate_request,
  fetch_and_store,
}
use apartment_finder.Prelude.{
  string_eq, String, arith, eq_iff, ◌≡◌, refl, some, none, List, [], ◌∷◌, true, false, keep, ◌==◌,
}
use apartment_finder.Prelude.Dict.{get, put}
use apartment_finder.Prelude.Result.{Result, ok}
use apartment_finder.Common.Enums.{text_span}
use apartment_finder.Common.Json.{Json, text, number, is_truthy}
use apartment_finder.SnapshotStore.Repository.{
  Mapping, SnapshotCreateRequest, SnapshotRecord, SnapshotRepository, add, by_hash, ids_for,
}
use apartment_finder.SnapshotStore.Service.{create_snapshot, get_snapshot, new_record}
use apartment_finder.SnapshotStore.Retrieval.{
  IsIndexed, get_snapshot-create_snapshot, by_hash_lem, add-IsIndexed, add_all, AreNew,
}
use apartment_finder.Acquisition.Models.{Exn}
use apartment_finder.Acquisition.Firecrawl.Capture.{fetch_and_store_ok}
use apartment_finder.Facts.Store.{
  EvidenceRecord, FactRecord, FactStore, NewFact, add_fact, add_evidence, ParsedInt, non_negative,
  validate_value, validate_evidence_ids, links_from,
}
use apartment_finder.Facts.Provenance.{IsProven, add_fact-IsProven}
use apartment_finder.Tests.Data.{show_names}

abbrev hash : String → String
hash content = "sha"

abbrev hash_of_refs : Mapping → String
hash_of_refs refs = "refs"

abbrev empty : SnapshotRepository
empty = record { snapshots = []; hashes = [] }

abbrev create : SnapshotCreateRequest
create = record {
  schema_version = "v1";
  source_id = "zillow";
  url = "https://zillow.com/1";
  fetched_at = "2024-01-01";
  http_status = 200;
  formats = [];
  storage_refs = none;
  raw_refs = none;
  content_hash = none;
  change_tracking = none;
  raw_metadata = none;
  raw_content = some "page";
}

abbrev snapshot : SnapshotRecord
snapshot = new_record hash "n1" create "sha"

abbrev stocked : SnapshotRepository
stocked = record { snapshots = ("n1", snapshot) ∷ []; hashes = ("sha", "n1" ∷ []) ∷ [] }

created : create_snapshot hash "n1" create empty ≡ ok (snapshot, stocked)
unfolding create_snapshot add get put
created = refl

get_snapshot-create_snapshot_example :
    (get_snapshot stocked "n1" ≡ ok snapshot)
    × (get_snapshot stocked "n2" ≡ get_snapshot empty "n2")
get_snapshot-create_snapshot_example =
    get_snapshot-create_snapshot hash "n1" "n2" create empty stocked created
      (ground (arith, eq_iff "n1" "n2"))

empty-IsIndexed : IsIndexed empty
unfolding ids_for get
empty-IsIndexed h = tt

unused : get empty.snapshots "n1" ≡ none
unfolding get
unused = refl

add-IsIndexed_example : IsIndexed (add snapshot empty)
add-IsIndexed_example = add-IsIndexed empty snapshot unused empty-IsIndexed

abbrev second_snapshot : SnapshotRecord
second_snapshot = record snapshot { snapshot_id = "n2" }

abbrev other_snapshot : SnapshotRecord
other_snapshot = record snapshot { snapshot_id = "n3"; content_hash = "other" }

abbrev three : List SnapshotRecord
three = snapshot ∷ other_snapshot ∷ second_snapshot ∷ []

three-AreNew : AreNew three empty
unfolding get add put
three-AreNew = (refl, (refl, (refl, tt)))

by_hash_lem_example :
    by_hash (add_all three empty) "sha" ≡ some (keep (λ s. s.content_hash == "sha") three)
unfolding by_hash get
by_hash_lem_example = by_hash_lem empty three "sha" [] three-AreNew refl

abbrev fetch : FirecrawlRequest
fetch = record {
  schema_version = "v1";
  url = "https://zillow.com/1";
  formats = ("markdown", text "yes") ∷ [];
  change_tracking = some [];
  metadata = none;
}

abbrev page : FirecrawlResponse
page = record {
  url = "https://zillow.com/1";
  http_status = 200;
  formats = [];
  fetched_at = "2024-01-01";
  content_hash = none;
  change_tracking = none;
  storage_refs = none;
  raw_content = some "page";
}

abbrev client : FirecrawlRequest → Result Exn FirecrawlResponse
client request = ok page

abbrev dump : FirecrawlResponse → Mapping
dump response = []

abbrev start : AdapterState
start = record { adapter_log = some []; snapshots = empty }

abbrev fetched : SnapshotRecord
fetched = record snapshot { change_tracking = some []; raw_metadata = some [] }

fetches :
    (fetch_and_store show_names hash hash_of_refs dump client "n1"
      (some "t1")
      "zillow"
      fetch
      start).0
    ≡ ok fetched
unfolding fetch_and_store validate_request fallback_content_hash create_snapshot get is_truthy
fetches = refl

fetch_and_store_ok_example :
    let r =
      fetch_and_store show_names hash hash_of_refs dump client "n1"
        (some "t1")
        "zillow"
        fetch
        start in
    (response : FirecrawlResponse) × (validate_request show_names hash hash_of_refs dump client
        fetch
      ≡ ok tt)
    × (client fetch ≡ ok response)
    × (fetched.url ≡ response.url)
    × (fetched.source_id ≡ "zillow")
    × (r.1.snapshots ≡ add fetched start.snapshots)
fetch_and_store_ok_example =
    fetch_and_store_ok show_names hash hash_of_refs dump client "n1" (some "t1") "zillow" fetch
      start {snapshot = fetched} fetches

abbrev no_facts : FactStore
no_facts = record { evidence = []; facts = []; links = [] }

no_facts-IsProven : IsProven no_facts
unfolding get
no_facts-IsProven k f found = cc

abbrev to_int : Json → Conversion ParsedInt
to_int (number t true) = converted (non_negative 9)
to_int (number t false) = converted (non_negative 0)
to_int _ = unreadable

abbrev excerpt : EvidenceRecord
excerpt = record {
  evidence_id = "e1";
  snapshot_id = "n1";
  kind = text_span;
  locator = ("start_char", number "0" false) ∷ ("end_char", number "9" true) ∷ [];
  excerpt = some "$2000";
  created_at = 7;
}

abbrev with_evidence : FactStore
with_evidence = record no_facts { evidence = ("e1", excerpt) ∷ [] }

evidenced :
    add_evidence to_int "u1" 7 "n1" text_span excerpt.locator
      (some "$2000")
      (some "e1")
      none
      no_facts
    ≡ ok (excerpt, with_evidence)
unfolding add_evidence get put
evidenced = refl

no_facts-IsLocated : IsLocated to_int no_facts
unfolding get
no_facts-IsLocated k e found = cc

add_evidence-IsLocated_example :
    IsLocated to_int with_evidence × (get with_evidence.evidence "e1" ≡ some excerpt)
add_evidence-IsLocated_example =
    add_evidence-IsLocated to_int "u1" 7 "n1" text_span excerpt.locator (some "$2000") (some "e1")
      none no_facts with_evidence {new = excerpt} no_facts-IsLocated evidenced

with_evidence-IsProven : IsProven with_evidence
unfolding get
with_evidence-IsProven k f found = cc

abbrev rent : NewFact
rent = record {
  observation_id = "o1";
  entity_type = "listing";
  entity_id = "l1";
  field_path = "rent";
  value_json = number "2000" true;
  confidence = some "0.9";
  extractor = "regex";
  extracted_at = none;
  is_canonical = false;
  evidence_ids = "e1" ∷ [];
  fact_id = some "f1";
}

abbrev rent_fact : FactRecord
rent_fact = record {
  fact_id = "f1";
  observation_id = "o1";
  entity_type = "listing";
  entity_id = "l1";
  field_path = "rent";
  value_json = number "2000" true;
  confidence = some "0.9";
  extractor = "regex";
  extracted_at = 8;
  is_canonical = false;
}

abbrev with_rent : FactStore
with_rent = record with_evidence {
  facts = ("f1", rent_fact) ∷ [];
  links = record { fact_id = "f1"; evidence_id = "e1"; rank = 1 } ∷ [];
}

recorded_rent : add_fact "u2" 8 rent with_evidence ≡ ok (rent_fact, with_rent)
unfolding add_fact get put validate_value validate_evidence_ids links_from
recorded_rent = refl

add_fact-IsProven_example : IsProven with_rent
add_fact-IsProven_example =
    add_fact-IsProven "u2" 8 rent with_evidence with_rent {new = rent_fact} with_evidence-IsProven
      recorded_rent
