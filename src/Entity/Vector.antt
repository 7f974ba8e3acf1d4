-- ===== src/Entity/Vector.antt =====
-- The float patterns and vectors that the entities hold (ByteWriter.hpp, ByteReader.hpp).
use atlas_net.Prelude.{ℕ, ◌^◌, ◌<◌, refl}
use atlas_net.Bytes.Writer
use atlas_net.Bytes.Writer.{Vec3}
use atlas_net.Bytes.Reader
use atlas_net.Bytes.Codec.{RoundTrips, RoundTrips-bind, RoundTrips-map}
use atlas_net.Bytes.Integers.{RoundTrips-be}

pub record IsVec3 (v : Vec3) : Type 0 where
  pub x_fits : v.x < 2 ^ 32
  pub y_fits : v.y < 2 ^ 32
  pub z_fits : v.z < 2 ^ 32

pub RoundTrips-f32 : (v : ℕ) → v < 2 ^ 32 → RoundTrips (Writer.f32 v) Reader.f32 v
unfolding Writer.f32 Writer.u32 Reader.f32 Reader.u32
RoundTrips-f32 = RoundTrips-be 4

module _ (v : Vec3) (h : IsVec3 v) where
  pub RoundTrips-vec3 : RoundTrips (Writer.vec3 v) Reader.vec3 v
  unfolding Writer.vec3 Reader.vec3
  RoundTrips-vec3 = RoundTrips-bind _ _ _ _ v.x v (RoundTrips-f32 v.x h.x_fits) (
      RoundTrips-bind _ _ _ _ v.y v (RoundTrips-f32 v.y h.y_fits)
        (RoundTrips-map _ _ _ v.z v refl (RoundTrips-f32 v.z h.z_fits)))

  pub RoundTrips-write_vector3 : RoundTrips (Writer.write_vector3 v) Reader.read_vector3 v
  unfolding Writer.write_vector3 Reader.read_vector3
  RoundTrips-write_vector3 = RoundTrips-bind _ _ _ _ v.x v (RoundTrips-f32 v.x h.x_fits) (
      RoundTrips-bind _ _ _ _ v.y v (RoundTrips-f32 v.y h.y_fits)
        (RoundTrips-map _ _ _ v.z v refl (RoundTrips-f32 v.z h.z_fits)))
