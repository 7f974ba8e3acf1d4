-- ===== src/Manifest/WatchDog.antt =====
-- `WatchDog` (AtlasNet/runtime/watchdog/src/WatchDog.cpp): the choice of a heuristic and
-- `ComputeHeuristic`, with `GridHeuristic::SerializeBounds`. The quads that `Compute` makes, which are
-- float arithmetic, are an argument, and the number of shards that Docker is asked for is the result. The
-- map of writers is gone through in the order in which its keys were inserted.
use atlas_net.Prelude.{ℕ, ◌+◌, ◌==◌, ltb, List, [], ◌∷◌, Option, some, none, if◌then◌else◌, length}
use atlas_net.Bytes.Result.{ok, err}
use atlas_net.Bytes.Writer
use atlas_net.Bytes.Reader
use atlas_net.Heuristic.Grid.{GridShape, serialize_shape, deserialize_shape}
use atlas_net.Interlink.Run.{Run, done, threw, undefined_run, ◌>>=◌}
use atlas_net.Manifest.Types.{HeuristicType, e_none, e_grid_cell, e_octree, e_quadtree, e_invalid}
use atlas_net.Manifest.Documents.{Text, Documents}
use atlas_net.Manifest.Bounds.{
  Base64, push_heuristic, get_pending_bounds_count, get_claimed_bounds_count, store_pending_bounds,
  get_pending_bounds_as_byte_readers,
}

-- `none` is the null pointer; a heuristic is its quads.
pub record WatchDog : Type 0 where
  pub active_heuristic : HeuristicType
  pub heuristic : Option (List GridShape)

-- The cases fall through.
unfoldable pub switch_heuristic : HeuristicType → WatchDog → WatchDog
switch_heuristic e_none w = record { active_heuristic = e_none; heuristic = some [] }
switch_heuristic e_grid_cell w = record { active_heuristic = e_grid_cell; heuristic = some [] }
switch_heuristic e_octree w = record w { active_heuristic = e_octree }
switch_heuristic e_quadtree w = record w { active_heuristic = e_quadtree }
switch_heuristic e_invalid w = record w { active_heuristic = e_invalid }

-- The shape goes into the writer under its number, which is made where there is none.
unfoldable pub serialize_into : GridShape → List (ℕ × Text) → List (ℕ × Text)
serialize_into b [] = (b.id, (serialize_shape b Writer.new).buf) ∷ []
serialize_into b (x ∷ xs) =
    let rest = serialize_into b xs in
    if x.0 == b.id
    then (x.0, (serialize_shape b (record Writer.new { buf = x.1 })).buf) ∷ xs
    else x ∷ rest

unfoldable pub serialize_each : List GridShape → List (ℕ × Text) → List (ℕ × Text)
serialize_each [] bws = bws
serialize_each (b ∷ bs) bws = serialize_each bs (serialize_into b bws)

unfoldable pub serialize_bounds : List GridShape → List (ℕ × Text)
serialize_bounds quads = serialize_each quads []

-- The loop that reads the pending bounds back to log them.
unfoldable pub read_each : List (ℕ × Text) → Run (Unit {0})
read_each [] = done tt
read_each (x ∷ xs) = elim (deserialize_shape (Reader.new x.1)) [
  | err e ↦ threw e
  | ok r ↦ read_each xs
]

module _ (js : Documents) (b64 : Base64) where
  unfoldable pub store_missing : List (ℕ × Text) → js.State → Run js.State
  store_missing bws s =
      if ltb (get_pending_bounds_count js s + get_claimed_bounds_count js s) (length bws)
      then store_pending_bounds js b64 bws s
      else done s

  unfoldable pub compute_heuristic :
      List GridShape → WatchDog → js.State → Run (ℕ × WatchDog × js.State)
  compute_heuristic quads w s = elim w.heuristic [
    | none ↦ undefined_run
    | some old ↦
        let bws = serialize_bounds quads in
        store_missing bws (push_heuristic js b64 quads s) >>= λ t.
        read_each (get_pending_bounds_as_byte_readers js b64 t) >>= λ _.
        done (length bws, record w { heuristic = some quads }, t)
  ]
