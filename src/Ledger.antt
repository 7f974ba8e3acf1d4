-- ===== src/Ledger.antt =====
-- AtlasNet/lib/Native/Entity: EntityLedger.hpp and .cpp, the entities that a shard holds, and
-- TransferCoordinator.hpp, which takes over those that have left its bounds.
pub mod Uuids
pub mod State
pub mod Ordered
pub mod Sweep
pub mod Transfer
pub mod Filed
pub mod HandOver
pub mod Request
