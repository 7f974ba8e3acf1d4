-- ===== src/Packets/ClientTransfer/Stages.antt =====
-- What the stages of ClientTransferPacket.hpp carry.
use atlas_net.Prelude.{ℕ, List}
use atlas_net.Bytes.Writer
use atlas_net.Bytes.Writer.{Write}
use atlas_net.Bytes.Reader
use atlas_net.Bytes.Reader.{Read, ◌>>=◌, return}
use atlas_net.Bytes.Sequence.{write_sequence, read_sequence}
use atlas_net.Entity.Full
use atlas_net.Entity.Full.{AtlasEntity}
use atlas_net.Network.Identity
use atlas_net.Network.Identity.{NetworkIdentity}

pub data MsgStage : Type 0 where
  shard_prepare shard_ready proxy_request_switch proxy_freeze shard_drained : MsgStage
  proxy_transfer_activate : MsgStage

-- `PrepareStageData::EntityData`
pub record Snapshot : Type 0 where
  pub entity : AtlasEntity
  pub last_packet_sequence : ℕ

-- `EntityData` of `ReadyStageData` and of `DrainedStageData`
pub record Sequenced : Type 0 where
  pub entity_id : List ℕ
  pub last_packet_sequence : ℕ

-- `TransferActivateStageData::EntityData`
pub record Activated : Type 0 where
  pub entity_id : List ℕ
  pub last_packet_sequence : ℕ
  pub entity_generation : ℕ

pub data StageData : Type 0 where
  prepare_data : List Snapshot → StageData
  ready_data : List Sequenced → StageData
  request_switch_data : List (List ℕ) → NetworkIdentity → StageData
  freeze_data : List (List ℕ) → StageData
  drained_data : List Sequenced → StageData
  transfer_activate_data : List Activated → StageData

unfoldable pub serialize_snapshot : Snapshot → Write
serialize_snapshot d w = Writer.u64 d.last_packet_sequence (Full.serialize d.entity w)

unfoldable pub deserialize_snapshot : Read Snapshot
deserialize_snapshot = do
  entity ← Full.deserialize
  last_packet_sequence ← Reader.u64
  return (record { entity = entity; last_packet_sequence = last_packet_sequence })

unfoldable pub serialize_sequenced : Sequenced → Write
serialize_sequenced d w = Writer.u64 d.last_packet_sequence (Writer.uuid d.entity_id w)

unfoldable pub deserialize_sequenced : Read Sequenced
deserialize_sequenced = do
  entity_id ← Reader.uuid
  last_packet_sequence ← Reader.u64
  return (record { entity_id = entity_id; last_packet_sequence = last_packet_sequence })

unfoldable pub serialize_activated : Activated → Write
serialize_activated d w =
    Writer.u64 d.entity_generation (Writer.u64 d.last_packet_sequence (Writer.uuid d.entity_id w))

unfoldable pub deserialize_activated : Read Activated
deserialize_activated = do
  entity_id ← Reader.uuid
  last_packet_sequence ← Reader.u64
  entity_generation ← Reader.u64
  return (record {
    entity_id = entity_id;
    last_packet_sequence = last_packet_sequence;
    entity_generation = entity_generation;
  })

-- `StageData::Serialize`, by the alternative that the variant holds.
unfoldable pub serialize_stage : StageData → Write
serialize_stage (prepare_data ds) w = write_sequence serialize_snapshot ds w
serialize_stage (ready_data ds) w = write_sequence serialize_sequenced ds w
serialize_stage (request_switch_data ids owner) w =
    Identity.serialize owner (write_sequence Writer.uuid ids w)
serialize_stage (freeze_data ids) w = write_sequence Writer.uuid ids w
serialize_stage (drained_data ds) w = write_sequence serialize_sequenced ds w
serialize_stage (transfer_activate_data ds) w = write_sequence serialize_activated ds w

-- The alternative that `emplace` makes for a stage, and its `Deserialize`.
unfoldable pub deserialize_stage : MsgStage → Read StageData
deserialize_stage shard_prepare = do
  ds ← read_sequence deserialize_snapshot
  return (prepare_data ds)
deserialize_stage shard_ready = do ds ← read_sequence deserialize_sequenced; return (ready_data ds)
deserialize_stage proxy_request_switch = do
  ids ← read_sequence Reader.uuid
  owner ← Identity.deserialize
  return (request_switch_data ids owner)
deserialize_stage proxy_freeze = do ids ← read_sequence Reader.uuid; return (freeze_data ids)
deserialize_stage shard_drained = do
  ds ← read_sequence deserialize_sequenced
  return (drained_data ds)
deserialize_stage proxy_transfer_activate = do
  ds ← read_sequence deserialize_activated
  return (transfer_activate_data ds)
