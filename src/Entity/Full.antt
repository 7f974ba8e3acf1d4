-- ===== src/Entity/Full.antt =====
-- `AtlasEntity` of AtlasNet/lib/Native/Entity/Entity.hpp: the minimal entity, its base class, and the
-- metadata behind it.
use atlas_net.Prelude.{ℕ, ◌^◌, ◌<◌, refl, List, length}
use atlas_net.Bytes.Writer
use atlas_net.Bytes.Writer.{Write}
use atlas_net.Bytes.Reader
use atlas_net.Bytes.Reader.{Read, ◌>>=◌, return}
use atlas_net.Bytes.Codec.{RoundTrips, RoundTrips-bind, RoundTrips-map}
use atlas_net.Bytes.Blobs.{RoundTrips-blob}
use atlas_net.Entity.Minimal
use atlas_net.Entity.Minimal.{AtlasEntityMinimal, IsMinimal, RoundTrips-minimal}

pub record AtlasEntity : Type 0 where
  pub base : AtlasEntityMinimal
  pub open base use *
  pub metadata : List ℕ

unfoldable pub serialize : AtlasEntity → Write
serialize e w = Writer.blob e.metadata (Minimal.serialize e.base w)

unfoldable pub deserialize : Read AtlasEntity
deserialize = do
  base ← Minimal.deserialize
  metadata ← Reader.blob
  return (record { base = base; metadata = metadata })

pub record IsEntity (e : AtlasEntity) : Type 0 where
  pub base_fits : IsMinimal e.base
  pub metadata_fits : length e.metadata < 2 ^ 32

-- Where an entity's members fit their types, `Serialize` appends bytes from which `Deserialize` reads
-- the entity back and stops behind them, whatever follows.
pub RoundTrips-entity : (e : AtlasEntity) → IsEntity e → RoundTrips (serialize e) deserialize e
unfolding serialize deserialize
RoundTrips-entity e h =
    RoundTrips-bind _ _ _ _ e.base e (RoundTrips-minimal e.base h.base_fits)
      (RoundTrips-map _ _ _ e.metadata e refl (RoundTrips-blob e.metadata h.metadata_fits))
