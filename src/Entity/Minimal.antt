-- ===== src/Entity/Minimal.antt =====
-- `AtlasEntityMinimal` of AtlasNet/lib/Native/Entity/Entity.hpp. Its member `data`, which holds the
-- transform alone, is the field `transform`.
use atlas_net.Prelude.{
  ℕ, ◌^◌, ◌<◌, ◌≡◌, refl, ◌==◌, if◌then◌else◌, Bool, true, false, List, length, ap, arith,
}
use atlas_net.Bytes.Writer
use atlas_net.Bytes.Writer.{Write}
use atlas_net.Bytes.Reader
use atlas_net.Bytes.Reader.{Read, ◌>>=◌, return}
use atlas_net.Bytes.Codec.{RoundTrips, RoundTrips-bind, RoundTrips-map}
use atlas_net.Bytes.Integers.{RoundTrips-u8, RoundTrips-u64}
use atlas_net.Bytes.Blobs.{RoundTrips-uuid}
use atlas_net.Entity.Transform
use atlas_net.Entity.Transform.{Transform, IsTransform, RoundTrips-transform}

pub record AtlasEntityMinimal : Type 0 where
  pub entity_id : List ℕ
  pub is_client : Bool
  pub client_id : List ℕ
  pub packet_seq : ℕ
  pub transfer_generation : ℕ
  pub transform : Transform

-- A bool as an integer, and an integer as a bool.
abbrev pub of_bool : Bool → ℕ
of_bool true = 1
of_bool false = 0

abbrev pub to_bool : ℕ → Bool
to_bool n = if n == 0 then false else true

unfoldable pub serialize : AtlasEntityMinimal → Write
serialize e w0 =
    let w1 = Writer.uuid e.entity_id w0 in
    let w2 = Writer.u8 (of_bool e.is_client) w1 in
    let w3 = Writer.uuid e.client_id w2 in
    let w4 = Writer.u64 e.packet_seq w3 in
    let w5 = Writer.u64 e.transfer_generation w4 in Transform.serialize e.transform w5

unfoldable pub deserialize : Read AtlasEntityMinimal
deserialize = do
  entity_id ← Reader.uuid
  is_client ← Reader.u8
  client_id ← Reader.uuid
  packet_seq ← Reader.u64
  transfer_generation ← Reader.u64
  transform ← Transform.deserialize
  return (record {
    entity_id = entity_id;
    is_client = to_bool is_client;
    client_id = client_id;
    packet_seq = packet_seq;
    transfer_generation = transfer_generation;
    transform = transform;
  })

abbrev pub IsUuid : List ℕ → Type 0
IsUuid id = length id ≡ 16

pub record IsMinimal (e : AtlasEntityMinimal) : Type 0 where
  pub entity_id_fits : IsUuid e.entity_id
  pub client_id_fits : IsUuid e.client_id
  pub packet_seq_fits : e.packet_seq < 2 ^ 64
  pub transfer_generation_fits : e.transfer_generation < 2 ^ 64
  pub transform_fits : IsTransform e.transform

of_bool_lt : (b : Bool) → of_bool b < 2 ^ 8
of_bool_lt true = omega arith
of_bool_lt false = omega arith

to_bool-of_bool : (b : Bool) → to_bool (of_bool b) ≡ b
to_bool-of_bool true = refl
to_bool-of_bool false = refl

module _ (e : AtlasEntityMinimal) (h : IsMinimal e) where
  pub RoundTrips-minimal : RoundTrips (serialize e) deserialize e
  unfolding serialize deserialize
  RoundTrips-minimal =
      RoundTrips-bind _ _ _ _ e.entity_id e (RoundTrips-uuid e.entity_id h.entity_id_fits) (
        RoundTrips-bind _ _ _ _ (of_bool e.is_client) e
          (RoundTrips-u8 (of_bool e.is_client) (of_bool_lt e.is_client))
          (RoundTrips-bind _ _ _ _ e.client_id e (RoundTrips-uuid e.client_id h.client_id_fits) (
            RoundTrips-bind _ _ _ _ e.packet_seq e (RoundTrips-u64 e.packet_seq h.packet_seq_fits) (
              RoundTrips-bind _ _ _ _ e.transfer_generation e
                (RoundTrips-u64 e.transfer_generation h.transfer_generation_fits)
                (RoundTrips-map _ _ _ e.transform e
                  (ap (λ b. record e { is_client = b }) (to_bool-of_bool e.is_client))
                  (RoundTrips-transform e.transform h.transform_fits))))))
