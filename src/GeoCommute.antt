-- ===== src/GeoCommute.antt =====
-- services/geo_commute: the routes that are kept, and the transit graph that they are found on.
pub mod Cache
pub mod Graph
