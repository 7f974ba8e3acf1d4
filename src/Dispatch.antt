-- ===== src/Dispatch.antt =====
-- AtlasNet/lib/Native/Network/Packet/PacketManager.hpp: who is called when a packet arrives.
pub mod Manager
pub mod Table
pub mod Delivery
pub mod Reentrancy
