-- ===== src/Manifest/Tables.antt =====
-- The table of bounds that `ClaimNextPendingBound` (HeuristicManifest.cpp) finds and what its commands leave.
use atlas_net.Prelude.{
  ℕ, ◌≡◌, refl, sym, ap, ◌∙◌, ◌⊎◌, inl, inr, List, [], ◌∷◌, ◌++◌, some, none, arith,
}
use atlas_net.Manifest.Types.{
  e_grid_cell, type_to_string, type_from_string, type_from_string_lem, strip_quotes-quoted,
}
use atlas_net.Manifest.Documents.{
  Text, Entry, array, Document, Documents, the_pending, the_claimed, entries_of, with_listing,
  having_id, owned, listed_nx,
}
use atlas_net.Manifest.Bounds.{get_active_heuristic_type}

pub having_id-append :
    (id : ℕ) (es ds : List Entry) → having_id id (es ++ ds) ≡ having_id id es ++ having_id id ds
having_id-append id [] ds = refl
having_id-append id (e ∷ es) ds = ground (arith, having_id-append id es ds)

having_id_self : (e : Entry) → having_id e.id (e ∷ []) ≡ e ∷ []
having_id_self e = ground arith

module _ (js : Documents) where
  -- The table is there, its heuristic is a grid, and the pending and the claimed bounds are listed.
  pub record IsListed (s : js.State) (ps cs : List Entry) : Type 0 where
    pub doc : Document
    pub there : js.get s ≡ some doc
    pub grid : doc.heuristic_type ≡ some (type_to_string e_grid_cell)
    pub pending_is : doc.pending ≡ some (array ps)
    pub claimed_is : doc.claimed ≡ some (array cs)

  pub append-IsListed :
      (s : js.State) (ps cs : List Entry) (e : Entry)
      → IsListed s ps cs
      → IsListed (js.append the_claimed e s) ps (cs ++ e ∷ [])
  append-IsListed s ps cs e h = record {
    doc = with_listing the_claimed (array (cs ++ e ∷ [])) h.doc;
    there = js.get-append the_claimed e s h.doc cs h.there h.claimed_is;
    grid = h.grid;
    pending_is = h.pending_is;
    claimed_is = refl;
  }

  pub own_last-IsListed :
      (s : js.State) (ps cs : List Entry) (e : Entry) (o n : Text)
      → IsListed s ps (cs ++ e ∷ [])
      → IsListed (js.own_last the_claimed o n s) ps (cs ++ owned o n e ∷ [])
  own_last-IsListed s ps cs e o n h = record {
    doc = with_listing the_claimed (array (cs ++ owned o n e ∷ [])) h.doc;
    there = js.get-own_last the_claimed o n s h.doc cs e h.there h.claimed_is;
    grid = h.grid;
    pending_is = h.pending_is;
    claimed_is = refl;
  }

  pub pop_first-IsListed :
      (s : js.State) (e : Entry) (ps cs : List Entry)
      → IsListed s (e ∷ ps) cs
      → IsListed (js.pop_first the_pending s) ps cs
  pop_first-IsListed s e ps cs h = record {
    doc = with_listing the_pending (array ps) h.doc;
    there = js.get-pop_first the_pending s h.doc e ps h.there h.pending_is;
    grid = h.grid;
    pending_is = refl;
    claimed_is = h.claimed_is;
  }

  -- The same, but the array of claimed bounds need not be there when it is empty.
  pub record IsOffered (s : js.State) (ps cs : List Entry) : Type 0 where
    pub doc : Document
    pub there : js.get s ≡ some doc
    pub grid : doc.heuristic_type ≡ some (type_to_string e_grid_cell)
    pub pending_is : doc.pending ≡ some (array ps)
    pub claimed_is : (doc.claimed ≡ some (array cs)) ⊎ ((doc.claimed ≡ none) × (cs ≡ []))

  pub list_nx-IsListed :
      (s : js.State) (ps cs : List Entry)
      → IsOffered s ps cs
      → IsListed (js.list_nx the_claimed s) ps cs
  list_nx-IsListed s ps cs h = elim h.claimed_is [
    | inl is ↦ record {
      doc = h.doc;
      there = there' ∙ ap (λ l. some (listed_nx the_claimed h.doc l)) is;
      grid = h.grid;
      pending_is = h.pending_is;
      claimed_is = is;
    }
    | inr (gone, empty) ↦ record {
      doc = with_listing the_claimed (array []) h.doc;
      there = there' ∙ ap (λ l. some (listed_nx the_claimed h.doc l)) gone;
      grid = h.grid;
      pending_is = h.pending_is;
      claimed_is = ap (λ es. some (array es)) (sym empty);
    }
  ]
    where
      there' : js.get (js.list_nx the_claimed s) ≡ some (listed_nx the_claimed h.doc h.doc.claimed)
      there' = js.get-list_nx the_claimed s h.doc h.there

  pub IsListed-IsOffered :
      (s : js.State) (ps cs : List Entry) → IsListed s ps cs → IsOffered s ps cs
  IsListed-IsOffered s ps cs h = record {
    doc = h.doc;
    there = h.there;
    grid = h.grid;
    pending_is = h.pending_is;
    claimed_is = inl h.claimed_is;
  }

  pub selected_last :
      (s : js.State) (ps cs : List Entry) (e : Entry)
      → IsListed s ps (cs ++ e ∷ [])
      → having_id e.id cs ≡ []
      → js.select the_claimed e.id s ≡ some (e ∷ [])
  selected_last s ps cs e h fresh =
      js.select_there the_claimed e.id s h.doc h.there
      ∙ ap (λ l. some (having_id e.id (entries_of l))) h.claimed_is
      ∙ ap some (
          having_id-append e.id cs (e ∷ [])
          ∙ ap (λ es. es ++ having_id e.id (e ∷ [])) fresh
          ∙ having_id_self e)

  pub active_type :
      (s : js.State) (d : Document)
      → js.get s ≡ some d
      → d.heuristic_type ≡ some (type_to_string e_grid_cell)
      → get_active_heuristic_type js s ≡ e_grid_cell
  unfolding get_active_heuristic_type
  active_type s d there grid =
      rw (get_active_heuristic_type, js.get_type_there (type_to_string e_grid_cell) s d there grid)
        (ap (λ x. (type_from_string x).1) (strip_quotes-quoted e_grid_cell)
          ∙ ap (λ r. r.1) (type_from_string_lem e_grid_cell))
