-- ===== src/GeoCommute/Cache/Freshness.antt =====
-- What the cache gives back of a route.
use apartment_finder.Prelude.{ℕ, ◌≡◌, String, none, some, arith, if◌then◌else◌, ◌==◌, string_eq}
use apartment_finder.Prelude.Dict.{get-put}
use apartment_finder.GeoCommute.Cache.{CommuteCache, get_route, set_route}

-- After a route is stored, a look-up under its key gives that route for the same version and nothing
-- for any other, and a look-up under another key gives what it gave before.
pub get_route-set_route :
    {Route : Type 0} (cache : CommuteCache Route) (key other : String) (route : Route)
    (version asked : String) (now : ℕ)
    → get_route (set_route key route version now cache) other asked ≡ (
        if key == other
        then (if version == asked then some route else none)
        else get_route cache other asked)
unfolding get_route set_route
get_route-set_route cache key other route version asked now = ground (
  arith,
  get-put cache key other (record { route = route; version_token = version; created_at = now }),
)
