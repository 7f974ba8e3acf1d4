-- ===== src/Handoff.antt =====
-- The server handoff of AtlasNet/lib/Native-exc/EntityHandoff/ServerHandoff: the tracker of who has
-- authority over an entity, the mailbox of handoffs that wait for their time, the planner that starts a
-- handoff when an entity leaves its shard's bounds, the election of an owner, and the leases of the
-- shards' connections.
pub mod Maps
pub mod Tracker
pub mod Mailbox
pub mod Wire
pub mod Connections
pub mod Presence
pub mod Runtime
pub mod Orbit
pub mod Orbiting
pub mod Seeding
pub mod Ownership
pub mod Receipt
pub mod Planner
pub mod Commit
pub mod Rounds
pub mod Marks
pub mod Planning
pub mod Places
pub mod Leaving
pub mod Database
pub mod Election
pub mod Candidates
pub mod Agreement
pub mod Keys
pub mod Leases
pub mod Exclusion
