-- ===== src/Packets/ClientTransfer/RoundTrip.antt =====
-- `SerializeData` and `DeserializeData` of ClientTransferPacket.hpp, one after the other.
use atlas_net.Prelude.{ℕ, ◌^◌, ◌<◌, ◌≡◌, refl, List, length, All, some, arith}
use atlas_net.Bytes.Writer
use atlas_net.Bytes.Reader
use atlas_net.Bytes.Codec.{RoundTrips, RoundTrips-bind, RoundTrips-map}
use atlas_net.Bytes.Integers.{RoundTrips-u64, RoundTrips-scalar32}
use atlas_net.Bytes.Blobs.{RoundTrips-uuid}
use atlas_net.Bytes.Sequence.{write_sequence, read_sequence, RoundTrips-sequence, All-map}
use atlas_net.Entity.Minimal.{IsUuid}
use atlas_net.Entity.Full.{IsEntity, RoundTrips-entity}
use atlas_net.Network.Identity.{IsIdentity, RoundTrips-identity}
use atlas_net.Packets.ClientTransfer.Stages.{
  MsgStage, shard_prepare, shard_ready, proxy_request_switch, proxy_freeze, shard_drained,
  proxy_transfer_activate, Snapshot, Sequenced, Activated, StageData, prepare_data, ready_data,
  request_switch_data, freeze_data, drained_data, transfer_activate_data, serialize_snapshot,
  deserialize_snapshot, serialize_sequenced, deserialize_sequenced, serialize_activated,
  deserialize_activated, serialize_stage, deserialize_stage,
}
use atlas_net.Packets.ClientTransfer.{
  ClientTransferPacket, to_int, of_int, serialize_data, deserialize_data, deserialize_rest,
}

-- The stage for which `DeserializeData` makes the alternative.
abbrev pub stage_of : StageData → MsgStage
stage_of (prepare_data ds) = shard_prepare
stage_of (ready_data ds) = shard_ready
stage_of (request_switch_data ids owner) = proxy_request_switch
stage_of (freeze_data ids) = proxy_freeze
stage_of (drained_data ds) = shard_drained
stage_of (transfer_activate_data ds) = proxy_transfer_activate

pub record IsSnapshot (d : Snapshot) : Type 0 where
  pub entity_fits : IsEntity d.entity
  pub sequence_fits : d.last_packet_sequence < 2 ^ 64

pub record IsSequenced (d : Sequenced) : Type 0 where
  pub id_fits : IsUuid d.entity_id
  pub sequence_fits : d.last_packet_sequence < 2 ^ 64

pub record IsActivated (d : Activated) : Type 0 where
  pub id_fits : IsUuid d.entity_id
  pub sequence_fits : d.last_packet_sequence < 2 ^ 64
  pub generation_fits : d.entity_generation < 2 ^ 64

abbrev pub Fit {ℓ κ} : {A : Type ℓ} → (A → Type κ) → List A → Type κ
Fit P xs = (length xs < 2 ^ 64) × All P xs

abbrev pub IsStageData : StageData → Type 0
IsStageData (prepare_data ds) = Fit IsSnapshot ds
IsStageData (ready_data ds) = Fit IsSequenced ds
IsStageData (request_switch_data ids owner) = Fit IsUuid ids × IsIdentity owner
IsStageData (freeze_data ids) = Fit IsUuid ids
IsStageData (drained_data ds) = Fit IsSequenced ds
IsStageData (transfer_activate_data ds) = Fit IsActivated ds

-- The members fit their types, and the variant holds the alternative of the stage.
pub record IsTransfer (p : ClientTransferPacket) : Type 0 where
  pub id_fits : IsUuid p.transfer_id
  pub data_fits : IsStageData p.stage_data
  pub agrees : p.stage ≡ stage_of p.stage_data

RoundTrips-snapshot :
    (d : Snapshot) → IsSnapshot d → RoundTrips (serialize_snapshot d) deserialize_snapshot d
unfolding serialize_snapshot deserialize_snapshot
RoundTrips-snapshot d h =
    RoundTrips-bind _ _ _ _ d.entity d (RoundTrips-entity d.entity h.entity_fits) (
      RoundTrips-map _ _ _ d.last_packet_sequence d refl
        (RoundTrips-u64 d.last_packet_sequence h.sequence_fits))

RoundTrips-sequenced :
    (d : Sequenced) → IsSequenced d → RoundTrips (serialize_sequenced d) deserialize_sequenced d
unfolding serialize_sequenced deserialize_sequenced
RoundTrips-sequenced d h =
    RoundTrips-bind _ _ _ _ d.entity_id d (RoundTrips-uuid d.entity_id h.id_fits) (
      RoundTrips-map _ _ _ d.last_packet_sequence d refl
        (RoundTrips-u64 d.last_packet_sequence h.sequence_fits))

RoundTrips-activated :
    (d : Activated) → IsActivated d → RoundTrips (serialize_activated d) deserialize_activated d
unfolding serialize_activated deserialize_activated
RoundTrips-activated d h =
    RoundTrips-bind _ _ _ _ d.entity_id d (RoundTrips-uuid d.entity_id h.id_fits) (
      RoundTrips-bind _ _ _ _ d.last_packet_sequence d
        (RoundTrips-u64 d.last_packet_sequence h.sequence_fits)
        (RoundTrips-map _ _ _ d.entity_generation d refl
          (RoundTrips-u64 d.entity_generation h.generation_fits)))

RoundTrips-ids :
    (ids : List (List ℕ))
    → Fit IsUuid ids
    → RoundTrips (write_sequence Writer.uuid ids) (read_sequence Reader.uuid) ids
RoundTrips-ids ids h =
    RoundTrips-sequence Writer.uuid Reader.uuid ids h.0 (All-map RoundTrips-uuid ids h.1)

RoundTrips-sequenced_list :
    (ds : List Sequenced)
    → Fit IsSequenced ds
    → RoundTrips (write_sequence serialize_sequenced ds) (read_sequence deserialize_sequenced) ds
RoundTrips-sequenced_list ds h =
    RoundTrips-sequence _ _ ds h.0 (All-map RoundTrips-sequenced ds h.1)

RoundTrips-stage :
    (d : StageData)
    → IsStageData d
    → RoundTrips (serialize_stage d) (deserialize_stage (stage_of d)) d
unfolding serialize_stage deserialize_stage
RoundTrips-stage (prepare_data ds) h = RoundTrips-map _ _ prepare_data ds _ refl (
    RoundTrips-sequence serialize_snapshot deserialize_snapshot ds h.0
      (All-map RoundTrips-snapshot ds h.1))
RoundTrips-stage (ready_data ds) h =
    RoundTrips-map _ _ ready_data ds _ refl (RoundTrips-sequenced_list ds h)
RoundTrips-stage (request_switch_data ids owner) h =
    RoundTrips-bind _ _ _ _ ids _ (RoundTrips-ids ids h.0)
      (RoundTrips-map _ _ (request_switch_data ids) owner _ refl (RoundTrips-identity owner h.1))
RoundTrips-stage (freeze_data ids) h =
    RoundTrips-map _ _ freeze_data ids _ refl (RoundTrips-ids ids h)
RoundTrips-stage (drained_data ds) h =
    RoundTrips-map _ _ drained_data ds _ refl (RoundTrips-sequenced_list ds h)
RoundTrips-stage (transfer_activate_data ds) h =
    RoundTrips-map _ _ transfer_activate_data ds _ refl (
      RoundTrips-sequence serialize_activated deserialize_activated ds h.0
        (All-map RoundTrips-activated ds h.1))

to_int_lt : (s : MsgStage) → to_int s < 2 ^ 32
to_int_lt shard_prepare = omega arith
to_int_lt _ = omega arith

of_int-to_int : (s : MsgStage) → of_int (to_int s) ≡ some s
of_int-to_int shard_prepare = refl
of_int-to_int _ = refl

-- Reading goes on in the alternative of the stage that was written.
module _ (p : ClientTransferPacket) (h : IsTransfer p) where
  RoundTrips-rest :
      RoundTrips
        (serialize_stage p.stage_data)
        (deserialize_rest p.transfer_id (of_int (to_int p.stage)))
        p
  unfolding deserialize_rest
  RoundTrips-rest =
      rw (of_int-to_int p.stage, h.agrees)
        (RoundTrips-map _ _ _ p.stage_data _ refl (RoundTrips-stage p.stage_data h.data_fits))

  -- Where a packet's members fit their types and its stage is the one of its data, `SerializeData`
  -- appends bytes from which `DeserializeData` reads the packet back and stops behind them, whatever
  -- follows.
  pub RoundTrips-client_transfer : RoundTrips (serialize_data p) deserialize_data p
  unfolding serialize_data deserialize_data
  RoundTrips-client_transfer =
      RoundTrips-bind _ _ _ _ p.transfer_id p (RoundTrips-uuid p.transfer_id h.id_fits) (
        RoundTrips-bind _ _ _ _ (to_int p.stage) p
          (RoundTrips-scalar32 (to_int p.stage) (to_int_lt p.stage)) RoundTrips-rest)
