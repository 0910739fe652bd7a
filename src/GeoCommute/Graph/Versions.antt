-- ===== src/GeoCommute/Graph/Versions.antt =====
-- The graph that is handed out belongs to the feed that was registered last, and is built once.
use apartment_finder.Prelude.{
  ℕ, ◌≡◌, String, Bool, true, Option, some, List, arith, eq_iff, eq_refl, or_else, string_eq,
}
use apartment_finder.Prelude.Result.{ok}
use apartment_finder.GeoCommute.Graph.{
  GraphState, OtpGraphBuildResult, GtfsFeedRecord, Build, ensure_graph, register_feed,
  is_allowed_path,
}

module _ (show_number : ℕ → String) (builder : Option (String → Build)) where
  -- A graph that is handed out is of the active feed, and asking again, at any time, hands out the
  -- same graph and builds nothing.
  pub ensure_graph_again :
      (now later : ℕ) (s : GraphState) {graph : OtpGraphBuildResult}
      → (ensure_graph show_number builder now s).0 ≡ ok graph
      → let s' = (ensure_graph show_number builder now s).1 in
        (s.active_fingerprint ≡ some graph.fingerprint)
        × (s'.graph_version_fingerprint ≡ some graph.fingerprint)
        × (ensure_graph show_number builder later s' ≡ (ok graph, s'))
  unfolding ensure_graph
  ensure_graph_again now later s handed =
      let active = or_else s.active_fingerprint "" in
      ground (arith, eq_iff (or_else s.graph_version_fingerprint "") active, eq_refl active)

module _ (path_exists : String → Bool) (real_path : String → String)
    (common_path : String → String → Option String) (mode_of : String → ℕ)
    (allowed_roots : List String) (show_number : ℕ → String)
    (builder : Option (String → Build)) where
  -- A feed is accepted only from an allowed root, and a graph that is asked for next is one of that
  -- feed.
  pub ensure_graph-register_feed :
      (path fingerprint : String) (now later : ℕ) (s s' : GraphState) {feed : GtfsFeedRecord}
      {graph : OtpGraphBuildResult}
      → register_feed path_exists real_path common_path mode_of allowed_roots path fingerprint now s
        ≡ ok (feed, s')
      → (ensure_graph show_number builder later s').0 ≡ ok graph
      → (is_allowed_path path_exists real_path common_path mode_of allowed_roots path allowed_roots
          ≡ true)
        × (path_exists path ≡ true)
        × (feed.path ≡ real_path path)
        × (graph.fingerprint ≡ fingerprint)
  unfolding register_feed ensure_graph
  ensure_graph-register_feed path fingerprint now later s s' accepted handed = ground arith
