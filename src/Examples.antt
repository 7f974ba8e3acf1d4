-- ===== src/Examples.antt =====
-- The theorems at concrete inputs, and runs of the model.
mod Codec
mod Packets
mod Dispatch
mod Ledger
mod Heuristic
mod Interlink
mod Handoff
mod Manifest
mod Registry
mod Runtime
mod Events
