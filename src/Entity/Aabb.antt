-- ===== src/Entity/Aabb.antt =====
-- `AABB3f` of AtlasNet/lib/Native/Global/Types/AABB.hpp: its two corners, and how they are sent.
use atlas_net.Prelude.{refl}
use atlas_net.Bytes.Writer
use atlas_net.Bytes.Writer.{Vec3, Write}
use atlas_net.Bytes.Reader
use atlas_net.Bytes.Reader.{Read, ◌>>=◌, return}
use atlas_net.Bytes.Codec.{RoundTrips, RoundTrips-bind, RoundTrips-map}
use atlas_net.Entity.Vector.{IsVec3, RoundTrips-write_vector3}

pub record Aabb : Type 0 where
  pub min : Vec3
  pub max : Vec3

unfoldable pub serialize : Aabb → Write
serialize b w = Writer.write_vector3 b.max (Writer.write_vector3 b.min w)

unfoldable pub deserialize : Read Aabb
deserialize = do
  min ← Reader.read_vector3
  max ← Reader.read_vector3
  return (record { min = min; max = max })

pub record IsAabb (b : Aabb) : Type 0 where
  pub min_fits : IsVec3 b.min
  pub max_fits : IsVec3 b.max

pub RoundTrips-aabb : (b : Aabb) → IsAabb b → RoundTrips (serialize b) deserialize b
unfolding serialize deserialize
RoundTrips-aabb b h =
    RoundTrips-bind _ _ _ _ b.min b (RoundTrips-write_vector3 b.min h.min_fits)
      (RoundTrips-map _ _ _ b.max b refl (RoundTrips-write_vector3 b.max h.max_fits))
