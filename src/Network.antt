-- ===== src/Network.antt =====
-- AtlasNet/lib/Native/Network: identities and addresses, and how they are sent.
pub mod Identity
pub mod Names
