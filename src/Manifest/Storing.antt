-- ===== src/Manifest/Storing.antt =====
-- How `StorePendingBoundsFromByteWriters` (HeuristicManifest.cpp) changes the table of bounds.
use atlas_net.Prelude.{
  ℕ, ◌==◌, ◌≡◌, refl, sym, ap, ◌∙◌, false, List, [], ◌∷◌, ◌++◌, map, Option, some, none,
  if◌then◌else◌, All, append-nil, append_assoc,
}
use mathlib.Core.Path.{subst}
use atlas_net.Interlink.Run.{done, ◌>>=◌}
use atlas_net.Manifest.Types.{e_grid_cell, type_to_string}
use atlas_net.Manifest.Documents.{
  Text, Entry, Listing, array, Document, Documents, the_pending, with_listing, entries_of,
  having_id, listed_nx,
}
use atlas_net.Manifest.Bounds.{
  Base64, PendingBound, pending_to_json, insert_pending, store_pending_bounds, object_size,
  object_readers, get_pending_bounds_count, get_claimed_bounds_count,
  get_pending_bounds_as_byte_readers,
}
use atlas_net.Manifest.Tables.{having_id-append}

-- A list that may be missing.
abbrev pub arrays : Option (List Entry) → Option Listing
arrays none = none
arrays (some es) = some (array es)

abbrev pub listed : Option (List Entry) → List Entry
listed none = []
listed (some es) = es

abbrev pub entry : Base64 → ℕ × Text → Entry
entry b64 x = pending_to_json (record { id = x.0; bounds64 = b64.encode x.1 })

-- No number stands twice.
abbrev pub Apart : List (ℕ × Text) → Type 0
Apart [] = Unit
Apart (x ∷ xs) = All (λ y. (x.0 == y.0) ≡ false) xs × Apart xs

module _ (js : Documents) where
  -- The table is there, its heuristic is a grid, and its bounds are listed in arrays.
  pub record IsTable (s : js.State) (ps cs : Option (List Entry)) : Type 0 where
    pub doc : Document
    pub there : js.get s ≡ some doc
    pub grid : doc.heuristic_type ≡ some (type_to_string e_grid_cell)
    pub pending_is : doc.pending ≡ arrays ps
    pub claimed_is : doc.claimed ≡ arrays cs

  -- The counts are of objects, and there are none.
  object_size-arrays : (o : Option (List Entry)) → object_size js (arrays o) ≡ 0
  unfolding object_size
  object_size-arrays none = refl
  object_size-arrays (some es) = refl

  pub counts-IsTable :
      (s : js.State) (ps cs : Option (List Entry))
      → IsTable s ps cs
      → (get_pending_bounds_count js s ≡ 0) × (get_claimed_bounds_count js s ≡ 0)
  unfolding get_pending_bounds_count get_claimed_bounds_count
  counts-IsTable s ps cs h = (
    rw (get_pending_bounds_count, h.there, h.pending_is) (object_size-arrays ps),
    rw (get_claimed_bounds_count, h.there, h.claimed_is) (object_size-arrays cs),
  )

  listed-IsTable :
      (s : js.State) (ps cs : Option (List Entry))
      → IsTable s ps cs
      → IsTable (js.list_nx the_pending s) (some (listed ps)) cs
  listed-IsTable s none cs h = record {
    doc = with_listing the_pending (array []) h.doc;
    there =
        js.get-list_nx the_pending s h.doc h.there
        ∙ ap (λ l. some (listed_nx the_pending h.doc l)) h.pending_is;
    grid = h.grid;
    pending_is = refl;
    claimed_is = h.claimed_is;
  }
  listed-IsTable s (some ps) cs h = record {
    doc = h.doc;
    there =
        js.get-list_nx the_pending s h.doc h.there
        ∙ ap (λ l. some (listed_nx the_pending h.doc l)) h.pending_is;
    grid = h.grid;
    pending_is = h.pending_is;
    claimed_is = h.claimed_is;
  }

  inserted-IsTable :
      (s : js.State) (ps cs : Option (List Entry)) (p : PendingBound)
      → IsTable s ps cs
      → having_id p.id (listed ps) ≡ []
      → (t : js.State) × (insert_pending js p s ≡ done t)
        × IsTable t (some (listed ps ++ pending_to_json p ∷ [])) cs
  unfolding insert_pending
  inserted-IsTable s ps cs p h fresh =
      let g = listed-IsTable s ps cs h in
      let u = js.list_nx the_pending s in
      let none_there =
        js.select_there the_pending p.id u g.doc g.there
        ∙ ap (λ l. some (having_id p.id (entries_of l))) g.pending_is
        ∙ ap some fresh in
      (
        js.append the_pending (pending_to_json p) u,
        rw (insert_pending, none_there) refl,
        record {
          doc = with_listing the_pending (array (listed ps ++ pending_to_json p ∷ [])) g.doc;
          there =
              js.get-append the_pending (pending_to_json p) u g.doc (listed ps) g.there
                g.pending_is;
          grid = g.grid;
          pending_is = refl;
          claimed_is = g.claimed_is;
        },
      )

  module _ (b64 : Base64) where
    -- None of the numbers is listed.
    abbrev Unlisted : List Entry → List (ℕ × Text) → Type 0
    Unlisted es xs = All (λ x. having_id x.0 es ≡ []) xs

    Unlisted-behind :
        (es : List Entry) (x : ℕ × Text) (xs : List (ℕ × Text))
        → All (λ y. (x.0 == y.0) ≡ false) xs
        → Unlisted es xs
        → Unlisted (es ++ entry b64 x ∷ []) xs
    unfolding pending_to_json
    Unlisted-behind es x [] h k = tt
    Unlisted-behind es x (y ∷ ys) h k = (
      having_id-append y.0 es (entry b64 x ∷ [])
          ∙ ap (λ zs. zs ++ having_id y.0 (entry b64 x ∷ [])) k.0
          ∙ ap (λ b. if b then entry b64 x ∷ [] else []) h.0,
      Unlisted-behind es x ys h.1 k.1,
    )

    stored-IsTable :
        (xs : List (ℕ × Text)) (s : js.State) (ps : List Entry) (cs : Option (List Entry))
        → IsTable s (some ps) cs
        → Apart xs
        → Unlisted ps xs
        → (t : js.State) × (store_pending_bounds js b64 xs s ≡ done t)
          × IsTable t (some (ps ++ map (entry b64) xs)) cs
    unfolding store_pending_bounds
    stored-IsTable [] s ps cs h a f =
        (s, refl, subst (λ es. IsTable s (some es) cs) (sym (append-nil ps)) h)
    stored-IsTable (x ∷ xs) s ps cs h a f =
        let (u, step, g) =
          inserted-IsTable s (some ps) cs (record { id = x.0; bounds64 = b64.encode x.1 }) h f.0 in
        let (t, steps, k) =
          stored-IsTable xs u (ps ++ entry b64 x ∷ []) cs g a.1 (Unlisted-behind ps x xs a.0 f.1) in
        (
          t,
          ap (λ r. r >>= store_pending_bounds js b64 xs) step ∙ steps,
          subst (λ es. IsTable t (some es) cs)
              (append_assoc ps (entry b64 x ∷ []) (map (entry b64) xs)) k,
        )

    Unlisted-nowhere : (xs : List (ℕ × Text)) → Unlisted [] xs
    Unlisted-nowhere [] = tt
    Unlisted-nowhere (x ∷ xs) = (refl, Unlisted-nowhere xs)

    pub all_stored :
        (x : ℕ × Text) (xs : List (ℕ × Text)) (s : js.State) (ps cs : Option (List Entry))
        → IsTable s ps cs
        → listed ps ≡ []
        → Apart (x ∷ xs)
        → (t : js.State) × (store_pending_bounds js b64 (x ∷ xs) s ≡ done t)
          × IsTable t (some (map (entry b64) (x ∷ xs))) cs
    unfolding store_pending_bounds
    all_stored x xs s ps cs h idle a =
        let (v, step, g) =
          inserted-IsTable s ps cs (record { id = x.0; bounds64 = b64.encode x.1 }) h
            (ap (having_id x.0) idle) in
        let g' = subst (λ es. IsTable v (some (es ++ entry b64 x ∷ [])) cs) idle g in
        let (t, steps, k) =
          stored-IsTable xs v (entry b64 x ∷ []) cs g' a.1
            (Unlisted-behind [] x xs a.0 (Unlisted-nowhere xs)) in
        (t, ap (λ r. r >>= store_pending_bounds js b64 xs) step ∙ steps, k)

    pub readers_none :
        (s : js.State) (ps cs : Option (List Entry))
        → IsTable s ps cs
        → get_pending_bounds_as_byte_readers js b64 s ≡ []
    unfolding get_pending_bounds_as_byte_readers object_readers
    readers_none s none cs h = rw (get_pending_bounds_as_byte_readers, h.there, h.pending_is) refl
    readers_none s (some ps) cs h =
        rw (get_pending_bounds_as_byte_readers, h.there, h.pending_is) refl
