-- ===== src/Packets/LocalEntityList.antt =====
-- AtlasNet/lib/Native/Entity/Packet/LocalEntityListRequestPacket.hpp. `status` is the number of the
-- enumerator; the variant `Response_Entities` is `Response`. `reserve` is left out.
use atlas_net.Prelude.{
  ℕ, ◌^◌, ◌<◌, ◌≡◌, ◌==◌, refl, Bool, true, false, List, length, All, if◌then◌else◌, arith,
}
use atlas_net.Bytes.Writer
use atlas_net.Bytes.Writer.{Write}
use atlas_net.Bytes.Reader
use atlas_net.Bytes.Reader.{ByteReader, Read, ◌>>=◌, return}
use atlas_net.Bytes.Codec.{RoundTrips, RoundTrips-bind, RoundTrips-map}
use atlas_net.Bytes.Integers.{RoundTrips-i8, RoundTrips-scalar32}
use atlas_net.Bytes.Sequence.{write_sequence, read_counted, RoundTrips-counted, All-map}
use atlas_net.Entity.Minimal
use atlas_net.Entity.Minimal.{AtlasEntityMinimal, IsMinimal, RoundTrips-minimal, of_bool, to_bool}
use atlas_net.Entity.Full
use atlas_net.Entity.Full.{AtlasEntity, IsEntity, RoundTrips-entity}

abbrev pub e_query : ℕ
e_query = 0

abbrev pub e_response : ℕ
e_response = 1

pub data Response : Type 0 where
  full : List AtlasEntity → Response
  minimal : List AtlasEntityMinimal → Response

pub record LocalEntityListRequestPacket : Type 0 where
  pub status : ℕ
  pub include_metadata : Bool
  pub response : Response

unfoldable pub serialize_response : Response → Write
serialize_response (full es) w = write_sequence Full.serialize es w
serialize_response (minimal es) w = write_sequence Minimal.serialize es w

-- The alternative is chosen by the flag that was read.
unfoldable pub deserialize_response : Bool → Read Response
deserialize_response true = do es ← read_counted Full.deserialize; return (full es)
deserialize_response false = do es ← read_counted Minimal.deserialize; return (minimal es)

unfoldable pub serialize_data : LocalEntityListRequestPacket → Write
serialize_data p w =
    serialize_response p.response
      (Writer.i8 (of_bool p.include_metadata) (Writer.write_scalar32 p.status w))

unfoldable pub deserialize_data : Read LocalEntityListRequestPacket
deserialize_data = do
  status ← Reader.read_scalar32
  flag ← Reader.i8
  response ← deserialize_response (to_bool flag)
  return (record { status = status; include_metadata = to_bool flag; response = response })

abbrev pub holds_full : Response → Bool
holds_full (full es) = true
holds_full (minimal es) = false

abbrev pub holds_minimal : Response → Bool
holds_minimal (full es) = false
holds_minimal (minimal es) = true

unfoldable pub validate_data : LocalEntityListRequestPacket → Bool
validate_data p =
    if p.status == e_query
    then true
    else if p.status == e_response
    then (if p.include_metadata then holds_full p.response else holds_minimal p.response)
    else false

abbrev pub IsResponse : Response → Type 0
IsResponse (full es) = (length es < 2 ^ 31) × All IsEntity es
IsResponse (minimal es) = (length es < 2 ^ 31) × All IsMinimal es

-- The members fit their types, the entities are fewer than 2 ^ 31, and the flag names the alternative.
pub record IsListPacket (p : LocalEntityListRequestPacket) : Type 0 where
  pub status_fits : p.status < 2 ^ 32
  pub response_fits : IsResponse p.response
  pub agrees : p.include_metadata ≡ holds_full p.response

RoundTrips-response :
    (x : Response)
    → IsResponse x
    → RoundTrips (serialize_response x) (deserialize_response (holds_full x)) x
unfolding serialize_response deserialize_response
RoundTrips-response (full es) h =
    RoundTrips-map _ _ full es _ refl
      (RoundTrips-counted Full.serialize Full.deserialize es h.0 (All-map RoundTrips-entity es h.1))
RoundTrips-response (minimal es) h = RoundTrips-map _ _ minimal es _ refl (
    RoundTrips-counted Minimal.serialize Minimal.deserialize es h.0
      (All-map RoundTrips-minimal es h.1))

to_bool-of_bool : (b : Bool) → to_bool (of_bool b) ≡ b
to_bool-of_bool true = refl
to_bool-of_bool false = refl

of_bool_lt : (b : Bool) → of_bool b < 2 ^ 7
of_bool_lt true = omega arith
of_bool_lt false = omega arith

module _ (p : LocalEntityListRequestPacket) (h : IsListPacket p) where
  RoundTrips-rest :
      RoundTrips
        (serialize_response p.response)
        (deserialize_response (to_bool (of_bool p.include_metadata)) >>= λ x. return (record {
          status = p.status;
          include_metadata = to_bool (of_bool p.include_metadata);
          response = x;
        }))
        p
  RoundTrips-rest =
      rw (to_bool-of_bool p.include_metadata, h.agrees)
        (RoundTrips-map _ _ _ p.response _ refl (RoundTrips-response p.response h.response_fits))

  -- Where a packet's members fit their types, its entities are fewer than 2 ^ 31 and its flag names the alternative of its response,
  -- `SerializeData` appends bytes from which `DeserializeData` reads the packet back and stops behind
  -- them, whatever follows.
  pub RoundTrips-list : RoundTrips (serialize_data p) deserialize_data p
  unfolding serialize_data deserialize_data
  RoundTrips-list =
      RoundTrips-bind _ _ _ _ p.status p (RoundTrips-scalar32 p.status h.status_fits) (
        RoundTrips-bind _ _ _ _ (of_bool p.include_metadata) p
          (RoundTrips-i8 (of_bool p.include_metadata) (of_bool_lt p.include_metadata))
          RoundTrips-rest)
