-- ===== src/Manifest/Recompute.antt =====
-- What `WatchDog::ComputeHeuristic` does to the manifest.
use atlas_net.Prelude.{
  ℕ, ◌+◌, ◌==◌, ◌≡◌, refl, sym, ap, ◌∙◌, true, false, ltb, List, [], ◌∷◌, ◌++◌, map, Option, some,
  length, All, arith, append-nil, append_assoc, All-append, suc,
}
use mathlib.Core.Path.{subst}
use atlas_net.Bytes.Writer
use atlas_net.Heuristic.Grid.{GridShape, serialize_shape}
use atlas_net.Interlink.Run.{done}
use atlas_net.Manifest.Documents.{Text, Entry, Documents}
use atlas_net.Manifest.Bounds.{Base64, push_heuristic}
use atlas_net.Manifest.Claim.{offered}
use atlas_net.Manifest.WatchDog.{
  WatchDog, serialize_into, serialize_each, serialize_bounds, read_each, store_missing,
  compute_heuristic,
}
use atlas_net.Manifest.Storing.{
  IsTable, listed, entry, Apart, counts-IsTable, all_stored, readers_none,
}
use atlas_net.Manifest.Pushed.{Before, pushed-IsTable}

module _ (js : Documents) where
  module _ (b64 : Base64) where
    abbrev bytes_of : GridShape → ℕ × Text
    bytes_of b = (b.id, (serialize_shape b Writer.new).buf)

    -- No two bounds have the same number.
    abbrev pub Numbered : List GridShape → Type 0
    Numbered [] = Unit
    Numbered (b ∷ bs) = All (λ c. (b.id == c.id) ≡ false) bs × Numbered bs

    serialize_into_new :
        (b : GridShape) (bws : List (ℕ × Text))
        → All (λ x. (x.0 == b.id) ≡ false) bws
        → serialize_into b bws ≡ bws ++ bytes_of b ∷ []
    unfolding serialize_into
    serialize_into_new b [] h = refl
    serialize_into_new b (x ∷ xs) h = rw h.0 (ap (◌∷◌ x) (serialize_into_new b xs h.1))

    -- The numbers of `bws` are not those of `bs`.
    abbrev Foreign : List (ℕ × Text) → List GridShape → Type 0
    Foreign bws bs = All (λ b. All (λ x. (x.0 == b.id) ≡ false) bws) bs

    Foreign-behind :
        (bws : List (ℕ × Text)) (b : GridShape) (bs : List GridShape)
        → All (λ c. (b.id == c.id) ≡ false) bs
        → Foreign bws bs
        → Foreign (bws ++ bytes_of b ∷ []) bs
    Foreign-behind bws b [] h k = tt
    Foreign-behind bws b (c ∷ cs) h k = (
      All-append (λ x. (x.0 == c.id) ≡ false) bws (bytes_of b ∷ []) k.0 (h.0, tt),
      Foreign-behind bws b cs h.1 k.1,
    )

    serialize_each_new :
        (bs : List GridShape) (bws : List (ℕ × Text))
        → Numbered bs
        → Foreign bws bs
        → serialize_each bs bws ≡ bws ++ map bytes_of bs
    unfolding serialize_each
    serialize_each_new [] bws n f = sym (append-nil bws)
    serialize_each_new (b ∷ bs) bws n f =
        ap (serialize_each bs) (serialize_into_new b bws f.0)
        ∙ serialize_each_new bs (bws ++ bytes_of b ∷ []) n.1 (Foreign-behind bws b bs n.0 f.1)
        ∙ append_assoc bws (bytes_of b ∷ []) (map bytes_of bs)

    Foreign-nobody : (bs : List GridShape) → Foreign [] bs
    Foreign-nobody [] = tt
    Foreign-nobody (b ∷ bs) = (tt, Foreign-nobody bs)

    serialize_bounds_lem :
        (quads : List GridShape) → Numbered quads → serialize_bounds quads ≡ map bytes_of quads
    unfolding serialize_bounds
    serialize_bounds_lem quads n = serialize_each_new quads [] n (Foreign-nobody quads)

    apart_bytes :
        (b : GridShape) (bs : List GridShape)
        → All (λ c. (b.id == c.id) ≡ false) bs
        → All (λ y. (b.id == y.0) ≡ false) (map bytes_of bs)
    apart_bytes b [] h = tt
    apart_bytes b (c ∷ cs) h = (h.0, apart_bytes b cs h.1)

    Numbered-Apart : (bs : List GridShape) → Numbered bs → Apart (map bytes_of bs)
    Numbered-Apart [] n = tt
    Numbered-Apart (b ∷ bs) n = (apart_bytes b bs n.0, Numbered-Apart bs n.1)

    entries-bytes_of :
        (bs : List GridShape) → map (entry b64) (map bytes_of bs) ≡ map (offered js b64) bs
    entries-bytes_of [] = refl
    entries-bytes_of (b ∷ bs) = ap (◌∷◌ (offered js b64 b)) (entries-bytes_of bs)

    length-bytes_of : (bs : List GridShape) → length (map bytes_of bs) ≡ length bs
    length-bytes_of [] = refl
    length-bytes_of (b ∷ bs) = ap suc (length-bytes_of bs)

    -- The database has no table of bounds, or one whose bounds are in arrays, with none pending; the
    -- heuristic is there, and the quads that it computes are at least one and have different numbers.
    -- Then `ComputeHeuristic` returns their number, and all of them are pending, in the order of the map of
    -- writers, while what was claimed is claimed as before, whether or not it has the same numbers.
    pub compute_heuristic_lem :
        (b : GridShape) (bs old : List GridShape) (w : WatchDog) (s : js.State)
        (ps cs : Option (List Entry))
        → w.heuristic ≡ some old
        → Numbered (b ∷ bs)
        → Before js s ps cs
        → listed ps ≡ []
        → (t : js.State) × (compute_heuristic js b64 (b ∷ bs) w s
            ≡ done (length (b ∷ bs), record w { heuristic = some (b ∷ bs) }, t))
          × IsTable js t (some (map (offered js b64) (b ∷ bs))) cs
    unfolding compute_heuristic store_missing read_each
    compute_heuristic_lem b bs old w s ps cs known n h idle =
        let quads = b ∷ bs in
        let u = push_heuristic js b64 quads s in
        let pushed = pushed-IsTable js b64 quads s ps cs h in
        let (no_ps, no_cs) = counts-IsTable js u ps cs pushed in
        let (t, step, k) =
          all_stored js b64 (bytes_of b) (map bytes_of bs) u ps cs pushed idle
            (Numbered-Apart quads n) in
        (
          t,
          rw
              (
                compute_heuristic,
                known,
                serialize_bounds_lem quads n,
                store_missing,
                no_ps,
                no_cs,
                length-bytes_of quads,
                some_missing,
                step,
                readers_none js b64 t (some (map (entry b64) (map bytes_of quads))) cs k,
              )
              refl,
          subst (λ es. IsTable js t (some es) cs) (entries-bytes_of quads) k,
        )
      where
        some_missing : ltb (0 + 0) (length (b ∷ bs)) ≡ true
        some_missing = ground arith
