-- ===== src/Manifest/Pushed.antt =====
-- `PushHeuristic` and `PullHeuristic` (HeuristicManifest.cpp).
use atlas_net.Prelude.{◌≡◌, refl, sym, ap, ◌∙◌, List, Option, some, none, ◌⊎◌, inl, inr}
use atlas_net.Bytes.Writer
use atlas_net.Heuristic.Grid
use atlas_net.Heuristic.Grid.{GridShape, serialize_shape}
use atlas_net.Manifest.Types.{e_grid_cell, type_to_string}
use atlas_net.Manifest.Documents.{Entry, Document, Documents, or_empty, empty_document}
use atlas_net.Manifest.Bounds.{
  Base64, push_heuristic, set_active_heuristic_type, internal_ensure_json_table,
}
use atlas_net.Manifest.Storing.{arrays, IsTable}
use atlas_net.Prelude.{◌<◌, ◌^◌, length, All}
use atlas_net.Bytes.Codec.{read-written}
use atlas_net.Heuristic.Grid.{IsShape, RoundTrips-grid}
use atlas_net.Manifest.Types.{unquote-quoted, quoted}
use atlas_net.Interlink.Run.{done}
use atlas_net.Manifest.Tables.{active_type}
use atlas_net.Manifest.Bounds.{
  pull_heuristic, read_quads, make_heuristic, get_active_heuristic_type,
}

module _ (js : Documents) where
  -- There is no table yet, or its bounds are listed in arrays.
  abbrev pub Before : js.State → Option (List Entry) → Option (List Entry) → Type 0
  Before s ps cs =
      ((js.get s ≡ none) × (ps ≡ none) × (cs ≡ none))
      ⊎ ((d : Document) × (js.get s ≡ some d) × (d.pending ≡ arrays ps) × (d.claimed ≡ arrays cs))

  -- What `Internal_EnsureJsonTable` leaves.
  ensured :
      (s : js.State) (ps cs : Option (List Entry))
      → Before s ps cs
      → (d : Document) × (js.get (js.ensure s) ≡ some d)
        × (d.pending ≡ arrays ps)
        × (d.claimed ≡ arrays cs)
  ensured s ps cs (inl (gone, no_ps, no_cs)) = (
    empty_document,
    js.get-ensure s ∙ ap (λ o. some (or_empty o)) gone,
    ap arrays (sym no_ps),
    ap arrays (sym no_cs),
  )
  ensured s ps cs (inr (d, there, p, c)) =
      (d, js.get-ensure s ∙ ap (λ o. some (or_empty o)) there, p, c)

  module _ (b64 : Base64) where
    pub pushed-IsTable :
        (quads : List GridShape) (s : js.State) (ps cs : Option (List Entry))
        → Before s ps cs
        → IsTable js (push_heuristic js b64 quads s) ps cs
    unfolding push_heuristic set_active_heuristic_type internal_ensure_json_table
    pushed-IsTable quads s ps cs h =
        let (d, there, p, c) = ensured s ps cs h in
        let v = type_to_string e_grid_cell in
        let w = b64.encode (Grid.serialize quads Writer.new).buf in
        record {
          doc = record d { heuristic_type = some v; heuristic_data64 = some w };
          there =
              js.get-set_data w (js.set_type v (js.ensure s)) (record d { heuristic_type = some v })
                (js.get-set_type v (js.ensure s) d there);
          grid = refl;
          pending_is = p;
          claimed_is = c;
        }

    pushed_data :
        (quads : List GridShape) (s : js.State) (ps cs : Option (List Entry))
        → Before s ps cs
        → js.get_data (push_heuristic js b64 quads s)
          ≡ some (quoted (b64.encode (Grid.serialize quads Writer.new).buf))
    unfolding push_heuristic set_active_heuristic_type internal_ensure_json_table
    pushed_data quads s ps cs h =
        let (d, there, p, c) = ensured s ps cs h in
        let v = type_to_string e_grid_cell in
        let w = b64.encode (Grid.serialize quads Writer.new).buf in
        let typed = record d { heuristic_type = some v } in
        let u = js.set_type v (js.ensure s) in
        js.get_data_there w (js.set_data w u) (record typed { heuristic_data64 = some w })
          (js.get-set_data w u typed (js.get-set_type v (js.ensure s) d there)) refl

    -- The database has no table of bounds, or one whose bounds are in arrays; the quads are fewer than
    -- 2 ^ 31, their members fit their types, and their bytes are fewer than 2 ^ 64. Then
    -- `PullHeuristic` gives back the quads that `PushHeuristic` stored, and the lists of pending and of
    -- claimed bounds are as before.
    pub pull_heuristic-push_heuristic :
        (quads : List GridShape) (s : js.State) (ps cs : Option (List Entry))
        → Before s ps cs
        → length quads < 2 ^ 31
        → All IsShape quads
        → length (Grid.serialize quads Writer.new).buf < 2 ^ 64
        → (pull_heuristic js b64 (push_heuristic js b64 quads s) ≡ done quads)
          × IsTable js (push_heuristic js b64 quads s) ps cs
    unfolding pull_heuristic push_heuristic read_quads make_heuristic get_active_heuristic_type
    pull_heuristic-push_heuristic quads s ps cs h few fit short =
        let t = pushed-IsTable quads s ps cs h in
        let u = push_heuristic js b64 quads s in
        let bytes = (Grid.serialize quads Writer.new).buf in
        (
          rw
              (
                pull_heuristic,
                active_type js u t.doc t.there t.grid,
                pushed_data quads s ps cs h,
                read_quads,
                unquote-quoted (b64.encode bytes),
                b64.decode-encode bytes,
                read-written (Grid.serialize quads) Grid.deserialize quads
                    (RoundTrips-grid quads few fit) short,
              )
              refl,
          t,
        )
