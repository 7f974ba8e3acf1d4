-- ===== src/Heuristic/Grid.antt =====
-- `GridShape` and `GridHeuristic` (AtlasNet/lib/Native/Heuristic/GridHeuristic), with the methods of
-- `IBounds` that put a shape's number in front of its box. `Compute`, which works on floats, and the
-- methods that are still empty are left out.
use atlas_net.Prelude.{
  ℕ, ◌^◌, ◌<◌, ◌≡◌, ◌⊎◌, inl, inr, refl, ap, true, false, List, [], ◌∷◌, ◌++◌, length, All, Option,
  some, none, if◌then◌else◌, Bool-cases,
}
use atlas_net.Bytes.Writer
use atlas_net.Bytes.Writer.{Vec3, Write}
use atlas_net.Bytes.Reader
use atlas_net.Bytes.Reader.{Read, ◌>>=◌, return}
use atlas_net.Bytes.Codec.{RoundTrips, RoundTrips-bind, RoundTrips-map}
use atlas_net.Bytes.Integers.{RoundTrips-scalar32}
use atlas_net.Bytes.Sequence.{write_sequence, read_counted, RoundTrips-counted, All-map}
use atlas_net.Entity.Aabb
use atlas_net.Entity.Aabb.{Aabb, IsAabb, RoundTrips-aabb}
use atlas_net.Heuristic.Floats.{Floats}
use atlas_net.Heuristic.Geometry.{contains}

pub record GridShape : Type 0 where
  pub id : ℕ
  pub aabb : Aabb

unfoldable pub serialize_shape : GridShape → Write
serialize_shape s w = Aabb.serialize s.aabb (Writer.write_scalar32 s.id w)

unfoldable pub deserialize_shape : Read GridShape
deserialize_shape = do
  id ← Reader.read_scalar32
  aabb ← Aabb.deserialize
  return (record { id = id; aabb = aabb })

-- A heuristic is its `quads`.
unfoldable pub serialize : List GridShape → Write
serialize quads w = write_sequence serialize_shape quads w

unfoldable pub deserialize : Read (List GridShape)
deserialize = read_counted deserialize_shape

-- `none` is the null pointer.
unfoldable pub query_position : Floats → Vec3 → List GridShape → Option GridShape
query_position f p [] = none
query_position f p (s ∷ ss) = if contains f s.aabb p then some s else query_position f p ss

pub record IsShape (s : GridShape) : Type 0 where
  pub id_fits : s.id < 2 ^ 32
  pub aabb_fits : IsAabb s.aabb

pub RoundTrips-shape :
    (s : GridShape) → IsShape s → RoundTrips (serialize_shape s) deserialize_shape s
unfolding serialize_shape deserialize_shape
RoundTrips-shape s h =
    RoundTrips-bind _ _ _ _ s.id s (RoundTrips-scalar32 s.id h.id_fits)
      (RoundTrips-map _ _ _ s.aabb s refl (RoundTrips-aabb s.aabb h.aabb_fits))

-- For fewer than 2 ^ 31 shapes, whose members fit their types, `Serialize` appends bytes from which
-- `Deserialize` reads the same shapes in the same order and stops behind them, whatever follows.
pub RoundTrips-grid :
    (quads : List GridShape)
    → length quads < 2 ^ 31
    → All IsShape quads
    → RoundTrips (serialize quads) deserialize quads
unfolding serialize deserialize
RoundTrips-grid quads few fit =
    RoundTrips-counted serialize_shape deserialize_shape quads few
      (All-map RoundTrips-shape quads fit)

module _ (f : Floats) (p : Vec3) where
  abbrev pub Misses : List GridShape → Type 0
  Misses = All (λ s. contains f s.aabb p ≡ false)

  -- `QueryPosition` returns the first of the shapes that contains the position, or null where none
  -- does.
  pub query_position_lem :
      (quads : List GridShape)
      → ((s : GridShape) × (before : List GridShape) × (after : List GridShape) × (quads
            ≡ before ++ s ∷ after)
          × Misses before
          × (contains f s.aabb p ≡ true)
          × (query_position f p quads ≡ some s))
        ⊎ (Misses quads × (query_position f p quads ≡ none))
  unfolding query_position
  query_position_lem [] = inr (tt, refl)
  query_position_lem (x ∷ xs) = elim (Bool-cases (contains f x.aabb p)) [
    | inl hit ↦ inl (x, [], xs, refl, tt, hit, rw hit refl)
    | inr miss ↦ elim (query_position_lem xs) [
      | inl (s, before, after, e, out, hit, found) ↦
          inl (s, x ∷ before, after, ap (◌∷◌ x) e, (miss, out), hit, rw miss found)
      | inr (out, lost) ↦ inr ((miss, out), rw miss lost)
    ]
  ]
