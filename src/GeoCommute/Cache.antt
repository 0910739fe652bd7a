-- ===== src/GeoCommute/Cache.antt =====
-- services/geo_commute/cache.py. A route is any type; a time of day is its hour and minute, with the
-- finer parts.
pub mod Freshness
use Prim.Native.String.{◌++◌}
use apartment_finder.Prelude.{
  ℕ, ◌+◌, ◌*◌, ◌/◌, ◌%◌, String, Option, none, some, if◌then◌else◌, ◌==◌, string_eq,
}
use apartment_finder.Prelude.Dict.{Dict, get, put}
use apartment_finder.Common.Enums.{CommuteMode, mode_value}

pub record CommuteCacheKey : Type 0 where
  pub origin_h3 : String
  pub anchor_id : String
  pub mode : CommuteMode
  pub time_bucket : String

unfoldable pub to_key : CommuteCacheKey → String
to_key k =
    "origin_h3="
    ++ k.origin_h3
    ++ "|"
    ++ "anchor_id="
    ++ k.anchor_id
    ++ "|"
    ++ "mode="
    ++ mode_value k.mode
    ++ "|"
    ++ "time_bucket="
    ++ k.time_bucket

pub record DayTime : Type 0 where
  pub hour : ℕ
  pub minute : ℕ
  pub second : ℕ
  pub microsecond : ℕ

-- The start of the bucket of a time; a policy has `bucket_minutes` of at least 1.
unfoldable pub bucket_for : ℕ → DayTime → DayTime
bucket_for bucket_minutes dt =
    let start = (dt.hour * 60 + dt.minute) / bucket_minutes * bucket_minutes in
    record { hour = start / 60; minute = start % 60; second = 0; microsecond = 0 }

pub record CommuteCacheEntry (Route : Type 0) : Type 0 where
  pub route : Route
  pub version_token : String
  pub created_at : ℕ

abbrev pub CommuteCache : Type 0 → Type 0
CommuteCache Route = Dict String (CommuteCacheEntry Route)

module _ {Route : Type 0} where
  abbrev pub fresh_route : Option (CommuteCacheEntry Route) → String → Option Route
  fresh_route none version_token = none
  fresh_route (some entry) version_token =
      if entry.version_token == version_token then some entry.route else none

  unfoldable pub get_route : CommuteCache Route → String → String → Option Route
  get_route cache key version_token = fresh_route (get cache key) version_token

  unfoldable pub set_route : String → Route → String → ℕ → CommuteCache Route → CommuteCache Route
  set_route key route version_token now cache =
      put cache key (record { route = route; version_token = version_token; created_at = now })
