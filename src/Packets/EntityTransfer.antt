-- ===== src/Packets/EntityTransfer.antt =====
-- AtlasNet/lib/Native/Entity/Packet/EntityTransferPacket.hpp. The variant `Data` is `StageData`; its
-- alternative and the member `stage` are set apart, and can differ.
use atlas_net.Prelude.{
  ℕ, ◌^◌, ◌<◌, ◌≡◌, ◌==◌, refl, Bool, true, List, length, All, Option, some, none, if◌then◌else◌,
  arith,
}
use atlas_net.Bytes.Result.{invalid_stage}
use atlas_net.Bytes.Writer
use atlas_net.Bytes.Writer.{Write}
use atlas_net.Bytes.Reader
use atlas_net.Bytes.Reader.{Read, ◌>>=◌, return, throw}
use atlas_net.Bytes.Codec.{RoundTrips, RoundTrips-bind, RoundTrips-map, RoundTrips-return}
use atlas_net.Bytes.Integers.{RoundTrips-u64, RoundTrips-scalar32}
use atlas_net.Bytes.Blobs.{RoundTrips-uuid}
use atlas_net.Bytes.Sequence.{write_sequence, read_sequence, RoundTrips-sequence, All-map}
use atlas_net.Entity.Minimal.{IsUuid}
use atlas_net.Entity.Full
use atlas_net.Entity.Full.{AtlasEntity, IsEntity, RoundTrips-entity}

pub data TransferStage : Type 0 where
  prepare ready commit complete : TransferStage

abbrev pub to_int : TransferStage → ℕ
to_int prepare = 0
to_int ready = 1
to_int commit = 2
to_int complete = 3

-- The cases of the `switch`; anything else is its default case.
abbrev pub of_int : ℕ → Option TransferStage
of_int n =
    if n == 0
    then some prepare
    else if n == 1
    then some ready
    else if n == 2
    then some commit
    else if n == 3
    then some complete
    else none

-- `CommitStageData::Data`
pub record CommitData : Type 0 where
  pub snapshot : AtlasEntity
  pub generation : ℕ

pub data StageData : Type 0 where
  prepare_data : List (List ℕ) → StageData
  ready_data : StageData
  commit_data : List CommitData → StageData
  complete_data : StageData

pub record EntityTransferPacket : Type 0 where
  pub transfer_id : List ℕ
  pub stage : TransferStage
  pub stage_data : StageData

unfoldable pub serialize_commit : CommitData → Write
serialize_commit d w = Writer.u64 d.generation (Full.serialize d.snapshot w)

unfoldable pub deserialize_commit : Read CommitData
deserialize_commit = do
  snapshot ← Full.deserialize
  generation ← Reader.u64
  return (record { snapshot = snapshot; generation = generation })

-- `StageData::Serialize`, by the alternative that the variant holds.
unfoldable pub serialize_stage : StageData → Write
serialize_stage (prepare_data ids) w = write_sequence Writer.uuid ids w
serialize_stage ready_data w = w
serialize_stage (commit_data ds) w = write_sequence serialize_commit ds w
serialize_stage complete_data w = w

-- The alternative that `emplace` makes for a stage, and its `Deserialize`.
unfoldable pub deserialize_stage : TransferStage → Read StageData
deserialize_stage prepare = do ids ← read_sequence Reader.uuid; return (prepare_data ids)
deserialize_stage ready = return ready_data
deserialize_stage commit = do ds ← read_sequence deserialize_commit; return (commit_data ds)
deserialize_stage complete = return complete_data

unfoldable pub serialize_data : EntityTransferPacket → Write
serialize_data p w =
    serialize_stage p.stage_data
      (Writer.write_scalar32 (to_int p.stage) (Writer.uuid p.transfer_id w))

-- What follows the stage: the `switch`, and the alternative that it has made.
unfoldable pub deserialize_rest : List ℕ → Option TransferStage → Read EntityTransferPacket
deserialize_rest transfer_id none = throw invalid_stage
deserialize_rest transfer_id (some stage) = do
  stage_data ← deserialize_stage stage
  return (record { transfer_id = transfer_id; stage = stage; stage_data = stage_data })

unfoldable pub deserialize_data : Read EntityTransferPacket
deserialize_data = do
  transfer_id ← Reader.uuid
  stage ← Reader.read_scalar32
  deserialize_rest transfer_id (of_int stage)

unfoldable pub validate_data : EntityTransferPacket → Bool
validate_data p = true

-- The stage for which `DeserializeData` makes the alternative.
abbrev pub stage_of : StageData → TransferStage
stage_of (prepare_data ids) = prepare
stage_of ready_data = ready
stage_of (commit_data ds) = commit
stage_of complete_data = complete

pub record IsCommit (d : CommitData) : Type 0 where
  pub snapshot_fits : IsEntity d.snapshot
  pub generation_fits : d.generation < 2 ^ 64

abbrev pub IsStageData : StageData → Type 0
IsStageData (prepare_data ids) = (length ids < 2 ^ 64) × All IsUuid ids
IsStageData ready_data = Unit {0}
IsStageData (commit_data ds) = (length ds < 2 ^ 64) × All IsCommit ds
IsStageData complete_data = Unit {0}

-- The members fit their types, and the variant holds the alternative of the stage.
pub record IsTransfer (p : EntityTransferPacket) : Type 0 where
  pub id_fits : IsUuid p.transfer_id
  pub data_fits : IsStageData p.stage_data
  pub agrees : p.stage ≡ stage_of p.stage_data

RoundTrips-commit :
    (d : CommitData) → IsCommit d → RoundTrips (serialize_commit d) deserialize_commit d
unfolding serialize_commit deserialize_commit
RoundTrips-commit d h =
    RoundTrips-bind _ _ _ _ d.snapshot d (RoundTrips-entity d.snapshot h.snapshot_fits)
      (RoundTrips-map _ _ _ d.generation d refl (RoundTrips-u64 d.generation h.generation_fits))

RoundTrips-stage :
    (d : StageData)
    → IsStageData d
    → RoundTrips (serialize_stage d) (deserialize_stage (stage_of d)) d
unfolding serialize_stage deserialize_stage
RoundTrips-stage (prepare_data ids) h =
    RoundTrips-map _ _ prepare_data ids _ refl
      (RoundTrips-sequence Writer.uuid Reader.uuid ids h.0 (All-map RoundTrips-uuid ids h.1))
RoundTrips-stage ready_data h = RoundTrips-return ready_data
RoundTrips-stage (commit_data ds) h = RoundTrips-map _ _ commit_data ds _ refl (
    RoundTrips-sequence serialize_commit deserialize_commit ds h.0
      (All-map RoundTrips-commit ds h.1))
RoundTrips-stage complete_data h = RoundTrips-return complete_data

to_int_lt : (s : TransferStage) → to_int s < 2 ^ 32
to_int_lt prepare = omega arith
to_int_lt ready = omega arith
to_int_lt commit = omega arith
to_int_lt complete = omega arith

of_int-to_int : (s : TransferStage) → of_int (to_int s) ≡ some s
of_int-to_int prepare = refl
of_int-to_int ready = refl
of_int-to_int commit = refl
of_int-to_int complete = refl

-- Reading goes on in the alternative of the stage that was written.
module _ (p : EntityTransferPacket) (h : IsTransfer p) where
  RoundTrips-rest :
      RoundTrips
        (serialize_stage p.stage_data)
        (deserialize_rest p.transfer_id (of_int (to_int p.stage)))
        p
  unfolding deserialize_rest
  RoundTrips-rest =
      rw (of_int-to_int p.stage, h.agrees)
        (RoundTrips-map _ _ _ p.stage_data _ refl (RoundTrips-stage p.stage_data h.data_fits))

  -- Where a packet's members fit their types and its stage is the one of its data, `SerializeData`
  -- appends bytes from which `DeserializeData` reads the packet back and stops behind them, whatever
  -- follows.
  pub RoundTrips-entity_transfer : RoundTrips (serialize_data p) deserialize_data p
  unfolding serialize_data deserialize_data
  RoundTrips-entity_transfer =
      RoundTrips-bind _ _ _ _ p.transfer_id p (RoundTrips-uuid p.transfer_id h.id_fits) (
        RoundTrips-bind _ _ _ _ (to_int p.stage) p
          (RoundTrips-scalar32 (to_int p.stage) (to_int_lt p.stage)) RoundTrips-rest)
