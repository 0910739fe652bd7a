-- ===== src/Common.antt =====
-- The vocabulary that all services share (services/common).
pub mod Enums
pub mod Text
pub mod Json
pub mod Floats
pub mod Conversion
