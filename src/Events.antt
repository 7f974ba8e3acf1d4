-- ===== src/Events.antt =====
-- The event system: AtlasNet/lib/Native/Events with Client/Client.hpp.
pub mod Event
pub mod Registry
pub mod System
pub mod Registered
pub mod Delivery
