-- ===== src/Examples/Heuristic.antt =====
-- Two boxes that share an edge, with coordinates from zero up.
use atlas_net.Prelude.{ℕ, ◌≡◌, ◌⊎◌, refl, true, List, [], ◌∷◌, ◌++◌, some, none, arith}
use atlas_net.Bytes.Writer.{Vec3}
use atlas_net.Bytes.Codec.{RoundTrips}
use atlas_net.Entity.Aabb.{Aabb}
use atlas_net.Heuristic.Floats.{nonnegative}
use atlas_net.Heuristic.Geometry.{contains, off_axis}
use atlas_net.Heuristic.Grid
use atlas_net.Heuristic.Grid.{
  GridShape, Misses, query_position, query_position_lem, RoundTrips-grid,
}

abbrev at : ℕ → Vec3
at n = record { x = n; y = n; z = n }

abbrev pub box : ℕ → ℕ → Aabb
box low high = record { min = at low; max = at high }

abbrev pub grid : List GridShape
grid = record { id = 0; aabb = box 0 10 } ∷ record { id = 1; aabb = box 10 20 } ∷ []

edge : query_position nonnegative (at 10) grid ≡ some (record { id = 0; aabb = box 0 10 })
unfolding query_position contains off_axis
edge = refl

RoundTrips-grid_example : RoundTrips (Grid.serialize grid) Grid.deserialize grid
RoundTrips-grid_example = RoundTrips-grid grid (omega arith) (omega arith)

query_position_lem_example :
    ((s : GridShape) × (before : List GridShape) × (after : List GridShape) × (grid
        ≡ before ++ s ∷ after)
      × Misses nonnegative (at 15) before
      × (contains nonnegative s.aabb (at 15) ≡ true)
      × (query_position nonnegative (at 15) grid ≡ some s))
    ⊎ (Misses nonnegative (at 15) grid × (query_position nonnegative (at 15) grid ≡ none))
query_position_lem_example = query_position_lem nonnegative (at 15) grid
