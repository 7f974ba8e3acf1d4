-- ===== src/Manifest.antt =====
-- The heuristic manifest, by which the processes hand out the bounds of the world among them:
-- AtlasNet/lib/Native/Heuristic/Database, with the watchdog that fills it.
pub mod Documents
pub mod Types
pub mod Bounds
pub mod Plain
pub mod Tables
pub mod Claim
pub mod Claimed
pub mod Storing
pub mod Pushed
pub mod WatchDog
pub mod Recompute
