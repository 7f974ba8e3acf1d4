-- ===== src/Packets/Delivery.antt =====
-- `PacketRegistry::CreateFromBytes` of AtlasNet/lib/Native/Network/Packet/Packet.cpp on the bytes of
-- `IPacket::Serialize`, over any registry.

use atlas_net.Prelude.{ℕ, ◌^◌, ◌<◌, ◌≡◌, refl, ap, true, List, ◌++◌, length, arith, some}
use atlas_net.Bytes.Result.{ok}
use atlas_net.Bytes.Writer
use atlas_net.Bytes.Reader
use atlas_net.Bytes.Reader.{◌>>=◌, return}
use atlas_net.Bytes.Codec.{
  RoundTrips, RoundTrips-bind, RoundTrips-map, Writes-bind, skip, read-written,
}
use atlas_net.Bytes.Integers.{RoundTrips-scalar32, be_bytes, Writes-scalar32, Reads-scalar32}
use atlas_net.Network.Identity.{IsIdentity}
use atlas_net.Packets.EntityTransfer.{IsTransfer, RoundTrips-entity_transfer}
use atlas_net.Packets.ClientTransfer.RoundTrip.{RoundTrips-client_transfer}
use atlas_net.Packets.ClientTransfer.RoundTrip
use atlas_net.Packets.LocalEntityList.{IsListPacket, RoundTrips-list}
use atlas_net.Packets.ClientIdAssign.{RoundTrips-assign}
use atlas_net.Packets.GenericEntity.{IsGeneric, RoundTrips-generic}
use atlas_net.Packets.Packet.{
  Body, entity_transfer_body, client_transfer_body, local_entity_list_body, client_id_assign_body,
  generic_entity_body, Packet, kind_of, serialize_data, deserialize_data, serialize, deserialize,
  validate, Registry, create, create_from_bytes,
}

-- The members fit their types, a list of entities has fewer than 2 ^ 31, and a variant holds the alternative that the packet announces.
abbrev pub IsBody : Body → Type 0
IsBody (entity_transfer_body p) = IsTransfer p
IsBody (client_transfer_body p) = RoundTrip.IsTransfer p
IsBody (local_entity_list_body p) = IsListPacket p
IsBody (client_id_assign_body p) = IsIdentity p.assigned_client_id
IsBody (generic_entity_body p) = IsGeneric p

RoundTrips-body :
    (b : Body) → IsBody b → RoundTrips (serialize_data b) (deserialize_data (kind_of b)) b
unfolding serialize_data deserialize_data
RoundTrips-body (entity_transfer_body p) h =
    RoundTrips-map _ _ entity_transfer_body p _ refl (RoundTrips-entity_transfer p h)
RoundTrips-body (client_transfer_body p) h =
    RoundTrips-map _ _ client_transfer_body p _ refl (RoundTrips-client_transfer p h)
RoundTrips-body (local_entity_list_body p) h =
    RoundTrips-map _ _ local_entity_list_body p _ refl (RoundTrips-list p h)
RoundTrips-body (client_id_assign_body p) h =
    RoundTrips-map _ _ client_id_assign_body p _ refl (RoundTrips-assign p h)
RoundTrips-body (generic_entity_body p) h =
    RoundTrips-map _ _ generic_entity_body p _ refl (RoundTrips-generic p h)

module _ (p : Packet) (typed : p.packet_type < 2 ^ 32) (h : IsBody p.body) where
  RoundTrips-packet : RoundTrips (serialize p) (deserialize (kind_of p.body)) p
  unfolding serialize deserialize
  RoundTrips-packet =
      RoundTrips-bind _ _ _ _ p.packet_type p (RoundTrips-scalar32 p.packet_type typed)
        (RoundTrips-map _ _ _ p.body p refl (RoundTrips-body p.body h))

  abbrev sent : List ℕ
  sent = (serialize p Writer.new).buf

  starts : sent ≡ be_bytes 4 p.packet_type ++ (RoundTrips-body p.body h).0
  unfolding serialize Writer.new
  starts =
      let body = RoundTrips-body p.body h in
      ap (λ w. w.buf)
        (Writes-bind (Writer.write_scalar32 p.packet_type) (serialize_data p.body)
          (be_bytes 4 p.packet_type) body.0 (Writes-scalar32 p.packet_type) body.1 Writer.new)

  module _ (small : length sent < 2 ^ 64) where
    whole_packet :
        deserialize (kind_of p.body) (Reader.new sent)
        ≡ ok (p, skip (length sent) (Reader.new sent))
    whole_packet = read-written (serialize p) _ p RoundTrips-packet small

    first_word :
        Reader.read_scalar32 (Reader.new sent) ≡ ok (p.packet_type, skip 4 (Reader.new sent))
    unfolding Reader.new
    first_word =
        Reads-scalar32 p.packet_type typed (Reader.new sent) (RoundTrips-body p.body h).0
          (record { within = omega arith; addressable = small }) starts

    -- Where the registry knows the type, the bytes of a valid packet become that packet again.
    pub create_from_bytes-serialize :
        (reg : Registry)
        → create reg p.packet_type ≡ some (kind_of p.body)
        → validate p ≡ true
        → create_from_bytes reg sent ≡ ok (some p)
    unfolding create_from_bytes
    create_from_bytes-serialize reg known valid =
        rw (first_word, create_from_bytes)
          (rw (known, create_from_bytes)
            (rw (whole_packet, create_from_bytes) (rw (valid, create_from_bytes))))
