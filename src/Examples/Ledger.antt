-- ===== src/Examples/Ledger.antt =====
-- A ledger with two entities, one of them a client out of bounds.
use atlas_net.Prelude.{
  ℕ, ◌==◌, ◌≡◌, ◌||◌, refl, Bool, true, false, [], ◌∷◌, map, some, arith, if◌then◌else◌,
}
use atlas_net.Bytes.Writer.{Vec3}
use atlas_net.Bytes.Codec.{RoundTrips}
use atlas_net.Entity.Full.{AtlasEntity}
use atlas_net.Packets.LocalEntityList
use atlas_net.Packets.LocalEntityList.{LocalEntityListRequestPacket, minimal, e_query, e_response}
use atlas_net.Ledger.Uuids.{Uuid, bytewise}
use atlas_net.Ledger.State.{
  EntityLedger, id_of, find, register_new_entity, on_list_packet, sweep, contains,
}
use atlas_net.Ledger.Ordered.{Ordered, register_new_entity_lem}
use atlas_net.Ledger.Sweep.{strays, sweep_finds, sweep_again}
use atlas_net.Ledger.Transfer.{TransferCoordinator, round}
use atlas_net.Packets.EntityTransfer.{prepare}
use atlas_net.Packets.ClientTransfer.{shard_prepare}
use atlas_net.Ledger.Filed.{find_transfer}
use atlas_net.Ledger.HandOver.{clients, others, gathered, round_lem}
use atlas_net.Ledger.Request.{query_answered}

abbrev pub uuid_from : ℕ → Uuid
uuid_from n = n ∷ 0 ∷ 0 ∷ 0 ∷ 0 ∷ 0 ∷ 0 ∷ 0 ∷ 0 ∷ 0 ∷ 0 ∷ 0 ∷ 0 ∷ 0 ∷ 0 ∷ 0 ∷ []

abbrev pub origin : Vec3
origin = record { x = 0; y = 0; z = 0 }

abbrev pub far : Vec3
far = record { x = 0x42c80000; y = 0; z = 0 }

abbrev pub entity : ℕ → Bool → Vec3 → AtlasEntity
entity n is_client position = record {
  base = record {
    entity_id = uuid_from n;
    is_client = is_client;
    client_id = uuid_from n;
    packet_seq = 1;
    transfer_generation = 0;
    transform = record {
      world = 0;
      position = position;
      bounding_box = record { min = origin; max = origin };
    };
  };
  metadata = [];
}

abbrev ledger : EntityLedger
ledger = record { entities = entity 1 false origin ∷ entity 3 true far ∷ []; marked = [] }

abbrev idle : TransferCoordinator
idle = record { entity_transfers = []; client_transfers = [] }

abbrev near : Vec3 → Bool
near p = p.x == 0

ledger-Ordered : Ordered bytewise ledger.entities
ledger-Ordered = ((refl, tt), (tt, tt))

register_new_entity_lem_example :
    (l' : EntityLedger) × (register_new_entity bytewise (entity 2 false far) ledger ≡ some l')
    × Ordered bytewise l'.entities
    × ((id : Uuid)
        → find bytewise id l'.entities ≡ (
            if bytewise.same id (uuid_from 2)
            then some (entity 2 false far)
            else find bytewise id ledger.entities))
    × (l'.marked ≡ ledger.marked)
unfolding find
register_new_entity_lem_example =
    register_new_entity_lem bytewise (entity 2 false far) ledger ledger-Ordered refl

sweep_finds_example :
    (sweep bytewise (some near) ledger).0
    ≡ map id_of (strays bytewise near ledger.marked ledger.entities)
sweep_finds_example = sweep_finds bytewise near ledger ledger-Ordered

one_stray : (sweep bytewise (some near) ledger).0 ≡ uuid_from 3 ∷ []
unfolding contains
one_stray = sweep_finds bytewise near ledger ledger-Ordered

sweep_again_example :
    sweep bytewise (some near) (sweep bytewise (some near) ledger).1
    ≡ ([], (sweep bytewise (some near) ledger).1)
sweep_again_example = sweep_again bytewise near ledger

round_lem_example :
    let found = strays bytewise near ledger.marked ledger.entities in
    (after : EntityLedger) × (filed : TransferCoordinator) × (round bytewise
        (some near)
        (uuid_from 8)
        (uuid_from 9)
        ledger
        idle
      ≡ some (after, filed))
    × (after.entities ≡ ledger.entities)
    × ((k : Uuid)
        → contains bytewise k after.marked
          ≡ (contains bytewise k ledger.marked || contains bytewise k (map id_of found)))
    × ((k : Uuid)
        → find_transfer bytewise k filed.entity_transfers ≡ (
            if bytewise.same (uuid_from 8) k
            then gathered prepare (uuid_from 8) (map id_of (others found))
            else find_transfer bytewise k []))
    × ((k : Uuid)
        → find_transfer bytewise k filed.client_transfers ≡ (
            if bytewise.same (uuid_from 9) k
            then gathered shard_prepare (uuid_from 9) (map id_of (clients found))
            else find_transfer bytewise k []))
round_lem_example =
    round_lem bytewise near (uuid_from 8) (uuid_from 9) ledger idle ledger-Ordered refl refl

abbrev query : LocalEntityListRequestPacket
query = record { status = e_query; include_metadata = true; response = minimal [] }

query_answered_example :
    (a : LocalEntityListRequestPacket) × (on_list_packet query ledger ≡ some a)
    × (LocalEntityList.validate_data a ≡ true)
    × (a.status ≡ e_response)
    × RoundTrips (LocalEntityList.serialize_data a) LocalEntityList.deserialize_data a
query_answered_example = query_answered query ledger (omega arith) (omega arith) refl
