-- ===== src/Packets.antt =====
-- The packets of the cluster: what each one carries, how it is written and read, and the registry
-- that makes a packet from the bytes of a message.
pub mod EntityTransfer
pub mod ClientTransfer
pub mod LocalEntityList
pub mod ClientIdAssign
pub mod GenericEntity
pub mod Command
pub mod Hash
pub mod Packet
pub mod Delivery
pub mod Registered
pub mod Agreement
