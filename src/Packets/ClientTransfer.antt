-- ===== src/Packets/ClientTransfer.antt =====
-- AtlasNet/lib/Native/Entity/Packet/ClientTransferPacket.hpp. The variant `Data` is `StageData`; its
-- alternative and the member `stage` are set apart, and can differ.
mod Stages
pub mod RoundTrip
use atlas_net.Prelude.{ℕ, ◌==◌, Bool, true, List, Option, some, none, if◌then◌else◌}
use atlas_net.Bytes.Result.{invalid_stage}
use atlas_net.Bytes.Writer
use atlas_net.Bytes.Writer.{Write}
use atlas_net.Bytes.Reader
use atlas_net.Bytes.Reader.{Read, ◌>>=◌, return, throw}
unfoldable pub use Stages.{serialize_stage, deserialize_stage}
pub use Stages.{
  MsgStage, shard_prepare, shard_ready, proxy_request_switch, proxy_freeze, shard_drained,
  proxy_transfer_activate, Snapshot, Sequenced, Activated, StageData, prepare_data, ready_data,
  request_switch_data, freeze_data, drained_data, transfer_activate_data,
}

pub record ClientTransferPacket : Type 0 where
  pub transfer_id : List ℕ
  pub stage : MsgStage
  pub stage_data : StageData

abbrev pub to_int : MsgStage → ℕ
to_int shard_prepare = 0
to_int shard_ready = 1
to_int proxy_request_switch = 2
to_int proxy_freeze = 3
to_int shard_drained = 4
to_int proxy_transfer_activate = 5

-- The cases of the `switch`; anything else is its default case.
abbrev pub of_int : ℕ → Option MsgStage
of_int n =
    if n == 0
    then some shard_prepare
    else if n == 1
    then some shard_ready
    else if n == 2
    then some proxy_request_switch
    else if n == 3
    then some proxy_freeze
    else if n == 4
    then some shard_drained
    else if n == 5
    then some proxy_transfer_activate
    else none

unfoldable pub serialize_data : ClientTransferPacket → Write
serialize_data p w =
    serialize_stage p.stage_data
      (Writer.write_scalar32 (to_int p.stage) (Writer.uuid p.transfer_id w))

-- What follows the stage: the `switch`, and the alternative that it has made.
unfoldable pub deserialize_rest : List ℕ → Option MsgStage → Read ClientTransferPacket
deserialize_rest transfer_id none = throw invalid_stage
deserialize_rest transfer_id (some stage) = do
  stage_data ← deserialize_stage stage
  return (record { transfer_id = transfer_id; stage = stage; stage_data = stage_data })

unfoldable pub deserialize_data : Read ClientTransferPacket
deserialize_data = do
  transfer_id ← Reader.uuid
  stage ← Reader.read_scalar32
  deserialize_rest transfer_id (of_int stage)

unfoldable pub validate_data : ClientTransferPacket → Bool
validate_data p = true
