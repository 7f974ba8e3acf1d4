-- ===== src/Registry.antt =====
-- The registries that the processes keep in the database: AtlasNet/lib/Native/Interlink/Database and
-- AtlasNet/lib/Native/Client.
pub mod Tables
pub mod Kept
pub mod Health
pub mod Expiry
pub mod Rounds
pub mod Servers
pub mod Clients
