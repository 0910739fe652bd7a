-- ===== src/Tests/Places.antt =====
-- The theorems on services/dedupe and services/geo_commute at concrete values.
use apartment_finder.Common.Json.{Json, text}
use apartment_finder.Prelude.Dict.{get, Dict, put}
use apartment_finder.Dedupe.Canonical.{
  Cluster, Candidate, CanonicalField, choose, ranking_tuple, last, second_last,
}
use apartment_finder.Prelude.{
  ◌↔◌, ℕ, ◌≡◌, refl, String, Bool, true, false, Option, none, some, List, [], ◌∷◌, All, string_eq,
  nat_eq,
}
use apartment_finder.Prelude.Result.{ok}
use apartment_finder.Prelude.Order.{nat_order, text_order, pair_order, sort_by, insert_by, text_leb}
use apartment_finder.Dedupe.Changes.{ListingChangeStore}
use apartment_finder.Dedupe.Publish.{record_changes}
use apartment_finder.Dedupe.Publish.News.{record_changes-All}
use apartment_finder.Dedupe.Canonical.Winner.{rank_of, choose_lem}
use apartment_finder.Dedupe.Bands.{Thresholds, validate_thresholds, band_for_score}
use apartment_finder.Dedupe.Bands.Exact.{band_for_score_lem}
use apartment_finder.GeoCommute.Cache.{CommuteCache, get_route, set_route}
use apartment_finder.GeoCommute.Cache.Freshness.{get_route-set_route}
use apartment_finder.GeoCommute.Graph.{
  GraphState, GtfsFeedRecord, OtpGraphBuildResult, ensure_graph, register_feed, is_allowed_path,
  rebuild_graph, validate_permissions,
}
use apartment_finder.GeoCommute.Graph.Versions.{ensure_graph_again, ensure_graph-register_feed}

abbrev read_score : String → ℕ
read_score confidence = 9

abbrev trust : Dict String ℕ
trust = []

abbrev old : Candidate ℕ
old = record {
  trust = 5;
  observed_at = 10;
  confidence = 9;
  fact_id = "f1";
  value_json = text "1900";
}

abbrev recent : Candidate ℕ
recent = record {
  trust = 5;
  observed_at = 20;
  confidence = 3;
  fact_id = "f2";
  value_json = text "2000";
}

abbrev price : CanonicalField ℕ
price = record {
  field_path = "/listing/price";
  fact_id = "f2";
  value_json = text "2000";
  reason = "recency";
  trust_score = 5;
  observed_at = 20;
  confidence = 3;
}

chosen : choose 0 read_score trust "/listing/price" (recent ∷ old ∷ []) ≡ some price
unfolding choose sort_by insert_by last second_last text_leb
chosen = refl

choose_lem_example :
    All
      (λ c.
        pair_order.le? (ranking_tuple 0 read_score trust c) (rank_of 0 read_score trust price)
        ≡ true)
      (recent ∷ old ∷ [])
choose_lem_example =
    choose_lem 0 read_score trust "/listing/price" (recent ∷ old ∷ []) {f = price} chosen

abbrev no_routes : CommuteCache ℕ
no_routes = []

get_route-set_route_example : get_route (set_route "a" 25 "v1" 7 no_routes) "a" "v2" ≡ none
get_route-set_route_example = get_route-set_route no_routes "a" "a" 25 "v1" "v2" 7

abbrev show_number : ℕ → String
show_number n = "1"

abbrev exists_path : String → Bool
exists_path path = true

abbrev real_path : String → String
real_path path = path

abbrev common_path : String → String → Option String
common_path path root = some root

abbrev mode_of : String → ℕ
mode_of path = 0

abbrev roots : List String
roots = "/data" ∷ []

abbrev fresh : GraphState
fresh = record {
  feeds = [];
  active_fingerprint = none;
  graph_version = none;
  build_counter = 0;
  graph_version_fingerprint = none;
  last_built_at = 0;
}

abbrev feed : GtfsFeedRecord
feed = record { path = "/data/gtfs.zip"; fingerprint = "abc"; registered_at = 3 }

abbrev registered : GraphState
registered = record fresh { feeds = ("abc", feed) ∷ []; active_fingerprint = some "abc" }

registers :
    register_feed exists_path real_path common_path mode_of roots "/data/gtfs.zip" "abc" 3 fresh
    ≡ ok (feed, registered)
unfolding register_feed put is_allowed_path validate_permissions
registers = refl

abbrev graph : OtpGraphBuildResult
graph = record { graph_version = "otp-graph-1"; fingerprint = "abc"; built_at = 5 }

builds : (ensure_graph show_number none 5 registered).0 ≡ ok graph
unfolding ensure_graph rebuild_graph
builds = refl

ensure_graph_again_example :
    let s' = (ensure_graph show_number none 5 registered).1 in
    (some "abc" ≡ some graph.fingerprint)
    × (s'.graph_version_fingerprint ≡ some graph.fingerprint)
    × (ensure_graph show_number none 9 s' ≡ (ok graph, s'))
ensure_graph_again_example =
    ensure_graph_again show_number none 5 9 registered {graph = graph} builds

ensure_graph-register_feed_example :
    (is_allowed_path exists_path real_path common_path mode_of roots "/data/gtfs.zip" roots ≡ true)
    × (exists_path "/data/gtfs.zip" ≡ true)
    × (feed.path ≡ real_path "/data/gtfs.zip")
    × (graph.fingerprint ≡ "abc")
ensure_graph-register_feed_example =
    ensure_graph-register_feed exists_path real_path common_path mode_of roots show_number none
      "/data/gtfs.zip" "abc" 3 5 fresh registered {feed = feed} {graph = graph} registers builds

abbrev thresholds : Thresholds ℕ
thresholds = record { auto_merge = 9; review = 6 }

valid : validate_thresholds 0 10 thresholds ≡ ok tt
unfolding validate_thresholds
valid = refl

band_for_score_lem_example :
    let band = band_for_score 0 10 thresholds 7 in
    ((band ≡ "auto_merge") ↔ (nat_order.le? thresholds.auto_merge 7 ≡ true))
    × ((band ≡ "review") ↔ (
        (nat_order.le? thresholds.review 7 ≡ true)
        × (nat_order.le? thresholds.auto_merge 7 ≡ false)))
    × ((band ≡ "auto_separate") ↔ (nat_order.le? thresholds.review 7 ≡ false))
band_for_score_lem_example = band_for_score_lem 0 10 thresholds 7 valid

abbrev same : Json → Json → Bool
same a b = false

abbrev show_json : Json → String
show_json value = "value"

abbrev change_id : String → String → Json → Json → String
change_id listing_id path before after = path

abbrev one_cluster : Cluster
one_cluster = record { cluster_id = "l1"; members = "l1" ∷ [] }

abbrev no_changes : ListingChangeStore
no_changes = []

record_changes-All_example :
    All
      (λ c. (same c.old_value_json c.new_value_json ≡ false) × (get no_changes c.change_id ≡ none))
      (record_changes same show_json change_id one_cluster []
        (("/listing/price", price) ∷ [])
        ("/listing/price" ∷ [])
        []).0
record_changes-All_example =
    record_changes-All same show_json change_id one_cluster [] (("/listing/price", price) ∷ [])
      ("/listing/price" ∷ []) []
