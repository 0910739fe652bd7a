-- ===== src/GeoCommute/Graph.antt =====
-- services/geo_commute/compliance.py. What `os` says of paths is given by functions: whether a path
-- exists, its real path, the common path of two (`none` is the ValueError), its permission bits.
pub mod Versions
use Prim.Native.String.{◌++◌}
use apartment_finder.Prelude.{
  ℕ, ◌+◌, ◌%◌, String, Bool, true, false, not, ◌||◌, Option, none, some, List, [], ◌∷◌, ltb,
  if◌then◌else◌, ◌==◌, string_eq,
}
use apartment_finder.Prelude.Dict.{Dict, put}
use apartment_finder.Prelude.Result.{Result, ok, err, raise_if, ◌>>=◌, ◌>>◌}
use apartment_finder.Common.Text.{truthy}

pub data GraphError : Type 0 where
  gtfs_storage : String → GraphError
  gtfs_redistribution : String → GraphError
  otp_graph_build : String → GraphError

pub record GtfsFeedRecord : Type 0 where
  pub path : String
  pub fingerprint : String
  pub registered_at : ℕ

pub record OtpGraphBuildResult : Type 0 where
  pub graph_version : String
  pub fingerprint : String
  pub built_at : ℕ

-- The feeds of the storage policy, and the fields of the graph manager.
pub record GraphState : Type 0 where
  pub feeds : Dict String GtfsFeedRecord
  pub active_fingerprint : Option String
  pub graph_version : Option String
  pub build_counter : ℕ
  pub graph_version_fingerprint : Option String
  pub last_built_at : ℕ

-- How a call of the builder ends.
pub data Build : Type 0 where
  built : String → Build
  no_version : Build
  raised : Build

abbrev pub is_root : Option String → String → Bool
is_root none root = false
is_root (some common) root = common == root

module _ (path_exists : String → Bool) (real_path : String → String)
    (common_path : String → String → Option String) (mode_of : String → ℕ)
    (allowed_roots : List String) where
  unfoldable pub is_allowed_path : String → List String → Bool
  is_allowed_path path [] = false
  is_allowed_path path (root ∷ roots) =
      is_root (common_path (real_path path) (real_path root)) (real_path root)
      || is_allowed_path path roots

  -- `mode & 0o037`: some of the five lowest bits.
  unfoldable pub validate_permissions : String → Result GraphError (Unit {0})
  validate_permissions path =
      raise_if (ltb 0 (mode_of path % 32)) (gtfs_storage "GTFS file permissions must be restricted")

  abbrev pub feed_of : String → String → ℕ → GtfsFeedRecord
  feed_of path fingerprint now = record {
    path = real_path path;
    fingerprint = fingerprint;
    registered_at = now;
  }

  abbrev pub with_feed : GtfsFeedRecord → GraphState → GtfsFeedRecord × GraphState
  with_feed feed s = (
    feed,
    record s {
      feeds = put s.feeds feed.fingerprint feed;
      active_fingerprint = some feed.fingerprint;
    },
  )

  -- `OtpGraphManager.register_feed`, through `GtfsStoragePolicy.register_feed`.
  unfoldable pub register_feed :
      String → String → ℕ → GraphState → Result GraphError (GtfsFeedRecord × GraphState)
  unfolding is_allowed_path validate_permissions
  register_feed path fingerprint now s = do
    raise_if (not (path_exists path)) (gtfs_storage "GTFS feed path does not exist")
    raise_if (not (is_allowed_path path allowed_roots))
        (gtfs_storage "GTFS feed path must be local-only")
    validate_permissions path
    ok (with_feed (feed_of path fingerprint now) s)

  unfoldable pub ensure_export_allowed : String → Result GraphError (Unit {0})
  unfolding is_allowed_path
  ensure_export_allowed target_path =
      raise_if (not (is_allowed_path target_path allowed_roots))
        (gtfs_redistribution "GTFS redistribution blocked; target must be approved local storage")

abbrev pub Answer : Type 0
Answer = Result GraphError OtpGraphBuildResult × GraphState

module _ (show_number : ℕ → String) (builder : Option (String → Build)) where
  abbrev pub call_builder : Option (String → Build) → String → Build
  call_builder none fingerprint = no_version
  call_builder (some build) fingerprint = build fingerprint

  abbrev pub install : String → String → ℕ → GraphState → Answer
  install version fingerprint now s = (
    ok (record { graph_version = version; fingerprint = fingerprint; built_at = now }),
    record s {
      graph_version = some version;
      graph_version_fingerprint = some fingerprint;
      last_built_at = now;
    },
  )

  abbrev pub finish_build : Build → String → ℕ → GraphState → Answer
  finish_build (built version) fingerprint now s = install version fingerprint now s
  finish_build no_version fingerprint now s =
      install ("otp-graph-" ++ show_number (s.build_counter + 1)) fingerprint now
        (record s { build_counter = s.build_counter + 1 })
  finish_build raised fingerprint now s = (err (otp_graph_build "OTP graph build failed"), s)

  unfoldable pub rebuild_graph : String → ℕ → GraphState → Answer
  rebuild_graph fingerprint now s =
      finish_build (call_builder builder fingerprint) fingerprint now s

  abbrev pub is_fingerprint : Option String → String → Bool
  is_fingerprint none fingerprint = false
  is_fingerprint (some old) fingerprint = old == fingerprint

  abbrev pub reuse_or_build : Option String → String → ℕ → GraphState → Answer
  reuse_or_build none fingerprint now s = rebuild_graph fingerprint now s
  reuse_or_build (some version) fingerprint now s =
      if not (is_fingerprint s.graph_version_fingerprint fingerprint)
      then rebuild_graph fingerprint now s
      else (
        ok (record {
          graph_version = version;
          fingerprint = fingerprint;
          built_at = s.last_built_at;
        }),
        s,
      )

  abbrev pub ensure_active : Option String → ℕ → GraphState → Answer
  ensure_active none now s = (err (otp_graph_build "No GTFS fingerprint registered"), s)
  ensure_active (some fingerprint) now s =
      if truthy fingerprint
      then reuse_or_build s.graph_version fingerprint now s
      else (err (otp_graph_build "No GTFS fingerprint registered"), s)

  unfoldable pub ensure_graph : ℕ → GraphState → Answer
  unfolding rebuild_graph
  ensure_graph now s = ensure_active s.active_fingerprint now s
