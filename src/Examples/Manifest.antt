-- ===== src/Examples/Manifest.antt =====
-- A table with two bounds that are pending, and one with none.
use atlas_net.Prelude.{◌≡◌, refl, inl, inr, List, [], ◌∷◌, Option, some, none, arith}
use atlas_net.Bytes.Writer
use atlas_net.Network.Identity
use atlas_net.Bytes.Sequence
use atlas_net.Entity.Aabb
use atlas_net.Heuristic.Grid
use atlas_net.Heuristic.Grid.{GridShape, serialize_shape}
use atlas_net.Interlink.Run.{done}
use atlas_net.Manifest.Types.{e_grid_cell, type_to_string}
use atlas_net.Manifest.Documents.{Entry, Document, array, empty_document}
use atlas_net.Manifest.Plain.{plain}
use atlas_net.Manifest.Bounds.{
  Base64, identity_bytes, claim_next_pending_bound, shard_from_bound_id, push_heuristic,
  pull_heuristic,
}
use atlas_net.Manifest.Tables.{IsListed}
use atlas_net.Manifest.Claim.{offered, leased, after_claim, claim_next_pending_bound_lem}
use atlas_net.Manifest.Storing.{IsTable}
use atlas_net.Manifest.Pushed.{pull_heuristic-push_heuristic}
use atlas_net.Manifest.WatchDog.{WatchDog, compute_heuristic}
use atlas_net.Manifest.Recompute.{compute_heuristic_lem}
use atlas_net.Examples.Handoff.{text, west}
use atlas_net.Examples.Heuristic.{grid, box}

abbrev same64 : Base64
same64 = record { encode = λ x. x; decode = λ x. x; decode-encode = λ x. refl }

abbrev first : GridShape
first = record { id = 0; aabb = box 0 10 }

abbrev second : GridShape
second = record { id = 1; aabb = box 10 20 }

abbrev two_pending : Document
two_pending = record empty_document {
  heuristic_type = some (type_to_string e_grid_cell);
  pending = some (array (offered plain same64 first ∷ offered plain same64 second ∷ []));
}

claim_next_pending_bound_lem_example :
    (claim_next_pending_bound plain same64 text west (some two_pending)
      ≡ done (some first, after_claim plain same64 text west first (some two_pending)))
    × IsListed plain
        (after_claim plain same64 text west first (some two_pending))
        (offered plain same64 second ∷ [])
        (leased plain same64 text west first ∷ [])
    × (shard_from_bound_id plain same64 0
          (after_claim plain same64 text west first (some two_pending))
        ≡ done (some west))
unfolding identity_bytes serialize_shape Identity.serialize Writer.uuid Writer.write
    Writer.write_scalar32 Writer.push_be Writer.u8 Writer.new Aabb.serialize Writer.write_vector3
    Writer.f32 Writer.u32
claim_next_pending_bound_lem_example =
    claim_next_pending_bound_lem plain same64 text west first (offered plain same64 second ∷ []) []
      (some two_pending) (omega arith) (omega arith) (omega arith) (omega arith) refl
      (record {
        doc = two_pending;
        there = refl;
        grid = refl;
        pending_is = refl;
        claimed_is = inr (refl, refl);
      })

pull_heuristic-push_heuristic_example :
    (pull_heuristic plain same64 (push_heuristic plain same64 grid none) ≡ done grid)
    × IsTable plain (push_heuristic plain same64 grid none) none none
unfolding Grid.serialize serialize_shape Sequence.write_sequence Sequence.write_each Aabb.serialize
    Writer.write_vector3 Writer.f32 Writer.u32 Writer.push_be Writer.u8 Writer.write_scalar32
    Writer.u64 Writer.new
pull_heuristic-push_heuristic_example =
    pull_heuristic-push_heuristic plain same64 grid none none none (inl (refl, refl, refl))
      (omega arith) (omega arith) (omega arith)

-- Both bounds are claimed.
abbrev claimed_listed : List Entry
claimed_listed = leased plain same64 text west first ∷ leased plain same64 text west second ∷ []

abbrev all_claimed : Document
all_claimed = record empty_document {
  heuristic_type = some (type_to_string e_grid_cell);
  pending = some (array []);
  claimed = some (array claimed_listed);
}

abbrev watch_dog : WatchDog
watch_dog = record { active_heuristic = e_grid_cell; heuristic = some [] }

compute_heuristic_lem_example :
    (t : Option Document) × (compute_heuristic plain same64
        (first ∷ second ∷ [])
        watch_dog
        (some all_claimed)
      ≡ done (2, record watch_dog { heuristic = some (first ∷ second ∷ []) }, t))
    × IsTable plain t
        (some (offered plain same64 first ∷ offered plain same64 second ∷ []))
        (some claimed_listed)
compute_heuristic_lem_example =
    compute_heuristic_lem plain same64 first (second ∷ []) [] watch_dog (some all_claimed) (some [])
      (some claimed_listed) refl ((refl, tt), (tt, tt)) (inr (all_claimed, refl, refl, refl)) refl
