-- ===== src/Network/Identity.antt =====
-- AtlasNet/lib/Native/Network/NetworkIdentity.hpp and .cpp, with the enumeration of NetworkEnums.hpp.
-- An enumerator is the pattern of its `int`, since any pattern can come in from the wire.
use atlas_net.Prelude.{ℕ, ◌^◌, ◌<◌, ◌==◌, not, refl, Bool, List, [], ◌∷◌, ◌&&◌, true}
use atlas_net.Bytes.Writer
use atlas_net.Bytes.Writer.{Write}
use atlas_net.Bytes.Reader
use atlas_net.Bytes.Reader.{Read, ◌>>=◌, return}
use atlas_net.Bytes.Codec.{RoundTrips, RoundTrips-bind, RoundTrips-map}
use atlas_net.Bytes.Integers.{RoundTrips-scalar32}
use atlas_net.Bytes.Blobs.{RoundTrips-uuid}
use atlas_net.Entity.Minimal.{IsUuid}

abbrev pub e_invalid : ℕ
e_invalid = 0

abbrev pub e_shard : ℕ
e_shard = 1

abbrev pub e_watch_dog : ℕ
e_watch_dog = 2

abbrev pub e_cartograph : ℕ
e_cartograph = 3

abbrev pub e_game_client : ℕ
e_game_client = 4

abbrev pub e_proxy : ℕ
e_proxy = 6

abbrev pub e_atlas_net_initial : ℕ
e_atlas_net_initial = 7

-- `UUID()`: sixteen zero bytes.
abbrev pub nil_uuid : List ℕ
nil_uuid = 0 ∷ 0 ∷ 0 ∷ 0 ∷ 0 ∷ 0 ∷ 0 ∷ 0 ∷ 0 ∷ 0 ∷ 0 ∷ 0 ∷ 0 ∷ 0 ∷ 0 ∷ 0 ∷ []

unfoldable pub is_nil : List ℕ → Bool
is_nil [] = true
is_nil (b ∷ bs) = b == 0 && is_nil bs

pub record NetworkIdentity : Type 0 where
  pub type : ℕ
  pub id : List ℕ

abbrev pub make_id_watch_dog : NetworkIdentity
make_id_watch_dog = record { type = e_watch_dog; id = nil_uuid }

unfoldable pub make_id_shard : List ℕ → NetworkIdentity
make_id_shard id = record { type = e_shard; id = id }

unfoldable pub make_id_game_client : List ℕ → NetworkIdentity
make_id_game_client id = record { type = e_game_client; id = id }

abbrev pub make_id_cartograph : NetworkIdentity
make_id_cartograph = record { type = e_cartograph; id = nil_uuid }

unfoldable pub is_internal : NetworkIdentity → Bool
is_internal n = not (n.type == e_game_client)

unfoldable pub serialize : NetworkIdentity → Write
serialize n w = Writer.uuid n.id (Writer.write_scalar32 n.type w)

unfoldable pub deserialize : Read NetworkIdentity
deserialize = do
  type ← Reader.read_scalar32
  id ← Reader.uuid
  return (record { type = type; id = id })

pub record IsIdentity (n : NetworkIdentity) : Type 0 where
  pub type_fits : n.type < 2 ^ 32
  pub id_fits : IsUuid n.id

pub RoundTrips-identity :
    (n : NetworkIdentity) → IsIdentity n → RoundTrips (serialize n) deserialize n
unfolding serialize deserialize
RoundTrips-identity n h =
    RoundTrips-bind _ _ _ _ n.type n (RoundTrips-scalar32 n.type h.type_fits)
      (RoundTrips-map _ _ _ n.id n refl (RoundTrips-uuid n.id h.id_fits))
