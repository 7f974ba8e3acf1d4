-- ===== src/Examples/Packets.antt =====
-- One entity, and a packet of each class.
use atlas_net.Prelude.{ℕ, ◌≡◌, refl, List, [], ◌∷◌, true, false, arith, ◌^◌, ◌<◌, length, ◌++◌}
use atlas_net.Bytes.Result.{err, invalid_stage}
use atlas_net.Bytes.Writer
use atlas_net.Bytes.Writer.{Vec3}
use atlas_net.Bytes.Reader
use atlas_net.Bytes.Codec.{RoundTrips}
use atlas_net.Entity.Full
use atlas_net.Entity.Full.{AtlasEntity, IsEntity, RoundTrips-entity}
use atlas_net.Network.Identity
use atlas_net.Network.Identity.{NetworkIdentity, make_id_shard, make_id_game_client}
use atlas_net.Packets.EntityTransfer
use atlas_net.Packets.EntityTransfer.{
  EntityTransferPacket, CommitData, IsTransfer, RoundTrips-entity_transfer,
}
use atlas_net.Packets.ClientTransfer
use atlas_net.Packets.ClientTransfer.{ClientTransferPacket}
use atlas_net.Packets.ClientTransfer.RoundTrip.{RoundTrips-client_transfer}
use atlas_net.Packets.LocalEntityList
use atlas_net.Packets.LocalEntityList.{
  LocalEntityListRequestPacket, IsListPacket, RoundTrips-list, e_query, e_response,
}
use atlas_net.Packets.ClientIdAssign
use atlas_net.Packets.ClientIdAssign.{ClientIdAssignPacket}
use atlas_net.Packets.Packet
use atlas_net.Packets.Packet.{
  Kind, entity_transfer, client_transfer, local_entity_list, client_id_assign, generic_entity,
  Packet, kind_of, entity_transfer_body, client_id_assign_body, create,
}

abbrev pub id_one : List ℕ
id_one = 1 ∷ 2 ∷ 3 ∷ 4 ∷ 5 ∷ 6 ∷ 7 ∷ 8 ∷ 9 ∷ 10 ∷ 11 ∷ 12 ∷ 13 ∷ 14 ∷ 15 ∷ 16 ∷ []

abbrev origin : Vec3
origin = record { x = 0; y = 0; z = 0 }

abbrev corner : Vec3
corner = record { x = 0x3f800000; y = 0x3f800000; z = 0x40000000 }

abbrev player : AtlasEntity
player = record {
  base = record {
    entity_id = id_one;
    is_client = true;
    client_id = id_one;
    packet_seq = 9;
    transfer_generation = 2;
    transform = record {
      world = 3;
      position = corner;
      bounding_box = record { min = origin; max = corner };
    };
  };
  metadata = 1 ∷ 2 ∷ [];
}

player-IsEntity : IsEntity player
player-IsEntity = omega arith

abbrev commit_packet : EntityTransferPacket
commit_packet = record {
  transfer_id = id_one;
  stage = EntityTransfer.commit;
  stage_data = EntityTransfer.commit_data (record { snapshot = player; generation = 3 } ∷ []);
}

commit_packet-IsTransfer : IsTransfer commit_packet
commit_packet-IsTransfer = record { id_fits = omega arith; data_fits = omega arith; agrees = refl }

abbrev prepare_packet : ClientTransferPacket
prepare_packet = record {
  transfer_id = id_one;
  stage = ClientTransfer.shard_prepare;
  stage_data =
      ClientTransfer.prepare_data (record { entity = player; last_packet_sequence = 9 } ∷ []);
}

abbrev answer : LocalEntityListRequestPacket
answer = record {
  status = e_response;
  include_metadata = true;
  response = LocalEntityList.full (player ∷ []);
}

RoundTrips-entity_example : RoundTrips (Full.serialize player) Full.deserialize player
RoundTrips-entity_example = RoundTrips-entity player player-IsEntity

RoundTrips-entity_transfer_example :
    RoundTrips
      (EntityTransfer.serialize_data commit_packet)
      EntityTransfer.deserialize_data
      commit_packet
RoundTrips-entity_transfer_example =
    RoundTrips-entity_transfer commit_packet commit_packet-IsTransfer

RoundTrips-client_transfer_example :
    RoundTrips
      (ClientTransfer.serialize_data prepare_packet)
      ClientTransfer.deserialize_data
      prepare_packet
RoundTrips-client_transfer_example =
    RoundTrips-client_transfer prepare_packet
      (record { id_fits = omega arith; data_fits = omega arith; agrees = refl })

abbrev pub assign : Packet
assign = record {
  packet_type = 4175458834;
  body = client_id_assign_body (record { assigned_client_id = record { type = 4; id = id_one } });
}

abbrev pub all_kinds : List Kind
all_kinds =
    local_entity_list ∷ client_id_assign ∷ generic_entity ∷ entity_transfer ∷ client_transfer ∷ []

pub assign-length : length (Packet.serialize assign Writer.new).buf < 2 ^ 64
unfolding Packet.serialize Writer.new Packet.serialize_data ClientIdAssign.serialize_data
    Identity.serialize Writer.write_scalar32 Writer.push_be Writer.u8 Writer.uuid Writer.write
assign-length = omega arith

-- Messages as they come in: a ready notice, a freeze notice for no entity, an empty answer.
abbrev ready_bytes : List ℕ
ready_bytes = id_one ++ (0 ∷ 0 ∷ 0 ∷ 1 ∷ [])

abbrev freeze_bytes : List ℕ
freeze_bytes = id_one ++ (0 ∷ 0 ∷ 0 ∷ 3 ∷ 0 ∷ 0 ∷ 0 ∷ 0 ∷ 0 ∷ 0 ∷ 0 ∷ 0 ∷ [])

abbrev list_bytes : List ℕ
list_bytes = 0 ∷ 0 ∷ 0 ∷ 1 ∷ 0 ∷ 0 ∷ 0 ∷ 0 ∷ 0 ∷ 0 ∷ 0 ∷ 0 ∷ 0 ∷ []

abbrev ready_packet : EntityTransferPacket
ready_packet = record {
  transfer_id = id_one;
  stage = EntityTransfer.ready;
  stage_data = EntityTransfer.ready_data;
}

abbrev freeze_packet : ClientTransferPacket
freeze_packet = record {
  transfer_id = id_one;
  stage = ClientTransfer.proxy_freeze;
  stage_data = ClientTransfer.freeze_data [];
}

abbrev empty_answer : LocalEntityListRequestPacket
empty_answer = record {
  status = 1;
  include_metadata = false;
  response = LocalEntityList.minimal [];
}

unknown_stage :
    EntityTransfer.deserialize_data (Reader.new (id_one ++ (0 ∷ 0 ∷ 0 ∷ 9 ∷ [])))
    ≡ err invalid_stage
unfolding Reader.new EntityTransfer.deserialize_data EntityTransfer.deserialize_rest Reader.uuid
    Reader.read Reader.copy Reader.read_scalar32 Reader.read_be Reader.be_loop Reader.next_byte
unknown_stage = refl
