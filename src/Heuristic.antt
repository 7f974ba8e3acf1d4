-- ===== src/Heuristic.antt =====
-- The division of the world: the boxes of AtlasNet/lib/Native/Global/Types/AABB.hpp as bounds, and
-- AtlasNet/lib/Native/Heuristic/GridHeuristic with Heuristic/IBounds.hpp.
pub mod Floats
pub mod Geometry
pub mod Grid
