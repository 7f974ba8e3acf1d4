-- ===== src/Packets/Packet.antt =====
-- `IPacket`, `TPacket` and `PacketRegistry` of AtlasNet/lib/Native/Network/Packet/Packet.hpp and .cpp,
-- over the packets that ATLASNET_REGISTER_PACKET registers. A class is a case of `Body`.
use atlas_net.Prelude.{
  ℕ, ◌-◌, ◌^◌, ◌==◌, ◌&&◌, not, Bool, true, false, List, [], ◌∷◌, ◌++◌, Option, some, none,
  if◌then◌else◌,
}
use atlas_net.Bytes.Result.{Result, ok, err}
use atlas_net.Bytes.Writer
use atlas_net.Bytes.Writer.{Write}
use atlas_net.Bytes.Reader
use atlas_net.Bytes.Reader.{Read, ◌>>=◌, return}
use atlas_net.Packets.Hash.{codes, hash_string}
use atlas_net.Packets.EntityTransfer
use atlas_net.Packets.EntityTransfer.{EntityTransferPacket}
use atlas_net.Packets.ClientTransfer
use atlas_net.Packets.ClientTransfer.{ClientTransferPacket}
use atlas_net.Packets.LocalEntityList
use atlas_net.Packets.LocalEntityList.{LocalEntityListRequestPacket}
use atlas_net.Packets.ClientIdAssign
use atlas_net.Packets.ClientIdAssign.{ClientIdAssignPacket}
use atlas_net.Packets.GenericEntity
use atlas_net.Packets.GenericEntity.{GenericEntityPacket}

-- A factory makes a packet of one class, to be filled by `Deserialize`; it is named by the class.
pub data Kind : Type 0 where
  entity_transfer client_transfer local_entity_list client_id_assign generic_entity : Kind

pub data Body : Type 0 where
  entity_transfer_body : EntityTransferPacket → Body
  client_transfer_body : ClientTransferPacket → Body
  local_entity_list_body : LocalEntityListRequestPacket → Body
  client_id_assign_body : ClientIdAssignPacket → Body
  generic_entity_body : GenericEntityPacket → Body

pub record Packet : Type 0 where
  pub packet_type : ℕ
  pub body : Body

abbrev pub kind_of : Body → Kind
kind_of (entity_transfer_body p) = entity_transfer
kind_of (client_transfer_body p) = client_transfer
kind_of (local_entity_list_body p) = local_entity_list
kind_of (client_id_assign_body p) = client_id_assign
kind_of (generic_entity_body p) = generic_entity

-- `GetPacketNameStatic`
unfoldable pub packet_name : Kind → List ℕ
packet_name entity_transfer = codes "EntityTransferPacket"
packet_name client_transfer = codes "ClientTransferPacket"
packet_name local_entity_list = codes "LocalEntityListRequestPacket"
packet_name client_id_assign = codes "ClientIDAssignPacket"
packet_name generic_entity = codes "GenericEntityPacket"

-- `TPacket::TypeID`
unfoldable pub type_id : Kind → ℕ
unfolding packet_name hash_string
type_id k = hash_string (packet_name k)

unfoldable pub serialize_data : Body → Write
serialize_data (entity_transfer_body p) w = EntityTransfer.serialize_data p w
serialize_data (client_transfer_body p) w = ClientTransfer.serialize_data p w
serialize_data (local_entity_list_body p) w = LocalEntityList.serialize_data p w
serialize_data (client_id_assign_body p) w = ClientIdAssign.serialize_data p w
serialize_data (generic_entity_body p) w = GenericEntity.serialize_data p w

unfoldable pub deserialize_data : Kind → Read Body
deserialize_data entity_transfer = do
  p ← EntityTransfer.deserialize_data
  return (entity_transfer_body p)
deserialize_data client_transfer = do
  p ← ClientTransfer.deserialize_data
  return (client_transfer_body p)
deserialize_data local_entity_list = do
  p ← LocalEntityList.deserialize_data
  return (local_entity_list_body p)
deserialize_data client_id_assign = do
  p ← ClientIdAssign.deserialize_data
  return (client_id_assign_body p)
deserialize_data generic_entity = do
  p ← GenericEntity.deserialize_data
  return (generic_entity_body p)

unfoldable pub validate_data : Body → Bool
validate_data (entity_transfer_body p) = EntityTransfer.validate_data p
validate_data (client_transfer_body p) = ClientTransfer.validate_data p
validate_data (local_entity_list_body p) = LocalEntityList.validate_data p
validate_data (client_id_assign_body p) = ClientIdAssign.validate_data p
validate_data (generic_entity_body p) = GenericEntity.validate_data p

unfoldable pub serialize : Packet → Write
serialize p w = serialize_data p.body (Writer.write_scalar32 p.packet_type w)

unfoldable pub deserialize : Kind → Read Packet
deserialize k = do
  packet_type ← Reader.read_scalar32
  body ← deserialize_data k
  return (record { packet_type = packet_type; body = body })

-- `packet_type != -1` compares with the largest uint32_t.
unfoldable pub validate : Packet → Bool
validate p = not (p.packet_type == 2 ^ 32 - 1) && validate_data p.body

-- `factories`
abbrev pub Registry : Type 0
Registry = List (ℕ × Kind)

unfoldable pub find : ℕ → Registry → Option Kind
find type [] = none
find type ((t, k) ∷ rest) = if t == type then some k else find type rest

-- `emplace` leaves an entry of the same type as it is.
unfoldable pub register : Registry → ℕ → Kind → Registry × Bool
register reg type k = elim (find type reg) [
  | none ↦ (reg ++ (type, k) ∷ [], true)
  | some old ↦ (reg, false)
]

-- `none` is the null pointer. It stands behind an `ASSERT(false, …)`, which aborts a debug build.
unfoldable pub create : Registry → ℕ → Option Kind
create reg type = find type reg

unfoldable pub create_from_bytes : Registry → List ℕ → Result (Option Packet)
create_from_bytes reg bytes = elim (Reader.read_scalar32 (Reader.new bytes)) [
  | err e ↦ err e
  | ok (type, _) ↦ elim (create reg type) [
    | none ↦ ok none
    | some k ↦ elim (deserialize k (Reader.new bytes)) [
      | err e ↦ err e
      | ok (p, _) ↦ if validate p then ok (some p) else ok none
    ]
  ]
]
