-- ===== src/Entity/Transform.antt =====
-- AtlasNet/lib/Native/Entity/Transform.hpp
use atlas_net.Prelude.{ℕ, ◌^◌, ◌<◌, refl}
use atlas_net.Bytes.Writer
use atlas_net.Bytes.Writer.{Vec3, Write}
use atlas_net.Bytes.Reader
use atlas_net.Bytes.Reader.{Read, ◌>>=◌, return}
use atlas_net.Bytes.Codec.{RoundTrips, RoundTrips-bind, RoundTrips-map}
use atlas_net.Bytes.Integers.{RoundTrips-u16}
use atlas_net.Entity.Vector.{IsVec3, RoundTrips-vec3}
use atlas_net.Entity.Aabb
use atlas_net.Entity.Aabb.{Aabb, IsAabb, RoundTrips-aabb}

pub record Transform : Type 0 where
  pub world : ℕ
  pub position : Vec3
  pub bounding_box : Aabb

unfoldable pub serialize : Transform → Write
serialize t w = Aabb.serialize t.bounding_box (Writer.vec3 t.position (Writer.u16 t.world w))

unfoldable pub deserialize : Read Transform
deserialize = do
  world ← Reader.u16
  position ← Reader.vec3
  bounding_box ← Aabb.deserialize
  return (record { world = world; position = position; bounding_box = bounding_box })

pub record IsTransform (t : Transform) : Type 0 where
  pub world_fits : t.world < 2 ^ 16
  pub position_fits : IsVec3 t.position
  pub box_fits : IsAabb t.bounding_box

pub RoundTrips-transform : (t : Transform) → IsTransform t → RoundTrips (serialize t) deserialize t
unfolding serialize deserialize
RoundTrips-transform t h = RoundTrips-bind _ _ _ _ t.world t (RoundTrips-u16 t.world h.world_fits) (
    RoundTrips-bind _ _ _ _ t.position t (RoundTrips-vec3 t.position h.position_fits)
      (RoundTrips-map _ _ _ t.bounding_box t refl (RoundTrips-aabb t.bounding_box h.box_fits)))
