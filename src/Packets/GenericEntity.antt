-- ===== src/Packets/GenericEntity.antt =====
-- `GenericEntityPacket` (AtlasNet/lib/Native-exc/EntityHandoff/Packet), which carries an entity from one
-- shard to another.
use atlas_net.Prelude.{ℕ, ◌^◌, ◌<◌, ◌==◌, refl, Bool, not}
use atlas_net.Bytes.Writer
use atlas_net.Bytes.Writer.{Write}
use atlas_net.Bytes.Reader
use atlas_net.Bytes.Reader.{Read, ◌>>=◌, return}
use atlas_net.Bytes.Codec.{RoundTrips, RoundTrips-bind, RoundTrips-map}
use atlas_net.Bytes.Integers.{RoundTrips-u8, RoundTrips-u64}
use atlas_net.Entity.Full
use atlas_net.Entity.Full.{AtlasEntity, IsEntity, RoundTrips-entity}
use atlas_net.Network.Identity
use atlas_net.Network.Identity.{NetworkIdentity, IsIdentity, RoundTrips-identity, e_invalid}

pub record GenericEntityPacket : Type 0 where
  pub sender : NetworkIdentity
  pub entity : AtlasEntity
  pub protocol_version : ℕ
  pub transfer_tick : ℕ
  pub sent_at_ms : ℕ

abbrev pub k_protocol_version : ℕ
k_protocol_version = 2

unfoldable pub serialize_data : GenericEntityPacket → Write
serialize_data p w = Writer.u64 p.sent_at_ms (
    Writer.u64 p.transfer_tick
      (Writer.u8 p.protocol_version (Full.serialize p.entity (Identity.serialize p.sender w))))

unfoldable pub deserialize_data : Read GenericEntityPacket
deserialize_data = do
  sender ← Identity.deserialize
  entity ← Full.deserialize
  version ← Reader.u8
  tick ← Reader.u64
  sent ← Reader.u64
  return (record {
    sender = sender;
    entity = entity;
    protocol_version = version;
    transfer_tick = tick;
    sent_at_ms = sent;
  })

unfoldable pub validate_data : GenericEntityPacket → Bool
validate_data p = not (p.sender.type == e_invalid)

pub record IsGeneric (p : GenericEntityPacket) : Type 0 where
  pub sender_fits : IsIdentity p.sender
  pub entity_fits : IsEntity p.entity
  pub version_fits : p.protocol_version < 2 ^ 8
  pub tick_fits : p.transfer_tick < 2 ^ 64
  pub sent_fits : p.sent_at_ms < 2 ^ 64

pub RoundTrips-generic :
    (p : GenericEntityPacket) → IsGeneric p → RoundTrips (serialize_data p) deserialize_data p
unfolding serialize_data deserialize_data
RoundTrips-generic p h =
    RoundTrips-bind _ _ _ _ p.sender p (RoundTrips-identity p.sender h.sender_fits) (
      RoundTrips-bind _ _ _ _ p.entity p (RoundTrips-entity p.entity h.entity_fits) (
        RoundTrips-bind _ _ _ _ p.protocol_version p
          (RoundTrips-u8 p.protocol_version h.version_fits)
          (RoundTrips-bind _ _ _ _ p.transfer_tick p (RoundTrips-u64 p.transfer_tick h.tick_fits)
            (RoundTrips-map _ _ _ p.sent_at_ms p refl (RoundTrips-u64 p.sent_at_ms h.sent_fits)))))
