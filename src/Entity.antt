-- ===== src/Entity.antt =====
-- The entity as it is stored and sent: AtlasNet/lib/Native/Entity/Entity.hpp and Transform.hpp, with
-- the box of AtlasNet/lib/Native/Global/Types/AABB.hpp. Floats are their 32-bit patterns.
pub mod Vector
pub mod Aabb
pub mod Transform
pub mod Minimal
pub mod Full
