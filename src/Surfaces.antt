-- ===== src/Surfaces.antt =====
-- The doors of engine/contextrail/surfaces, through which people decide.
pub mod Identity
pub mod Cards
pub mod Door
pub mod Checks
pub mod Endings
pub mod Decides
