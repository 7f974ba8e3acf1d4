-- ===== src/Manifest/Bounds.antt =====
-- `HeuristicManifest` (AtlasNet/lib/Native/Heuristic/Database), the methods on the JSON document. What
-- Boost does for base64 is a parameter. Logging is left out.
use atlas_net.Prelude.{
  ℕ, ◌==◌, ◌≡◌, Bool, true, false, List, [], ◌∷◌, map, Option, some, none, if◌then◌else◌, length,
}
use atlas_net.Bytes.Result.{ok, err, invalid_heuristic, redis_error, bad_optional_access}
use atlas_net.Bytes.Writer
use atlas_net.Bytes.Writer.{Vec3}
use atlas_net.Bytes.Reader
use atlas_net.Network.Identity
use atlas_net.Network.Identity.{NetworkIdentity, e_shard}
use atlas_net.Network.Names.{to_string}
use atlas_net.Heuristic.Floats.{Floats}
use atlas_net.Heuristic.Grid.{GridShape, deserialize_shape, query_position}
use atlas_net.Heuristic.Grid
use atlas_net.Interlink.Run.{Run, done, aborted, threw, undefined_run, ◌>>=◌}
use atlas_net.Manifest.Types.{
  HeuristicType, e_none, e_grid_cell, e_octree, e_quadtree, e_invalid, type_to_string,
  type_from_string, strip_quotes, unquote,
}
use atlas_net.Manifest.Documents.{
  Text, Entry, Listing, array, object, Documents, the_pending, the_claimed,
}

pub record Base64 : Type 0 where
  pub encode : Text → Text
  pub decode : Text → Text
  pub decode-encode : (bytes : Text) → decode (encode bytes) ≡ bytes

pub record PendingBound : Type 0 where
  pub id : ℕ
  pub bounds64 : Text

pub record ClaimedBound : Type 0 where
  pub id : ℕ
  pub identity : NetworkIdentity
  pub bounds64 : Text

-- `PendingBoundStruct::to_json`
unfoldable pub pending_to_json : PendingBound → Entry
pending_to_json p = record { id = p.id; bounds64 = p.bounds64; owner64 = none; owner_name = none }

abbrev pub is_filled {ℓ} : {A : Type ℓ} → List A → Bool
is_filled [] = false
is_filled (x ∷ xs) = true

-- The texts that the bytes of an identity and of a shape become.
unfoldable pub identity_bytes : NetworkIdentity → Text
identity_bytes who = (Identity.serialize who Writer.new).buf

module _ (js : Documents) where
  unfoldable pub internal_ensure_json_table : js.State → js.State
  internal_ensure_json_table s = js.ensure s

  unfoldable pub set_active_heuristic_type : HeuristicType → js.State → js.State
  set_active_heuristic_type t s = js.set_type (type_to_string t) (internal_ensure_json_table s)

  unfoldable pub get_active_heuristic_type : js.State → HeuristicType
  get_active_heuristic_type s = elim (js.get_type s) [
    | none ↦ e_invalid
    | some v ↦ (type_from_string (strip_quotes v)).1
  ]

  -- `Internal_InsertPendingBound`
  unfoldable pub insert_pending : PendingBound → js.State → Run js.State
  insert_pending p s =
      let t = js.list_nx the_pending s in
      elim (js.select the_pending p.id t) [
        | none ↦ done (js.append the_pending (pending_to_json p) t)
        | some es ↦
            if is_filled es then aborted else done (js.append the_pending (pending_to_json p) t)
      ]

  -- `size` of a member that is an object.
  unfoldable pub object_size : Option Listing → ℕ
  object_size none = 0
  object_size (some (array es)) = 0
  object_size (some (object es)) = length es

  unfoldable pub get_pending_bounds_count : js.State → ℕ
  get_pending_bounds_count s = elim (js.get s) [ none ↦ 0 | some d ↦ object_size d.pending ]

  unfoldable pub get_claimed_bounds_count : js.State → ℕ
  get_claimed_bounds_count s = elim (js.get s) [ none ↦ 0 | some d ↦ object_size d.claimed ]

  module _ (b64 : Base64) where
    -- `ClaimedBoundStruct::from_json`. A member that is not there is not to be asked for.
    unfoldable pub claimed_from_json : Entry → Run ClaimedBound
    claimed_from_json e = elim e.owner64 [
      | none ↦ undefined_run
      | some o ↦ elim (Identity.deserialize (Reader.new (b64.decode o))) [
        | err x ↦ threw x
        | ok (who, _) ↦ done (record { id = e.id; identity = who; bounds64 = e.bounds64 })
      ]
    ]

    unfoldable pub store_pending_bounds : List (ℕ × Text) → js.State → Run js.State
    store_pending_bounds [] s = done s
    store_pending_bounds (x ∷ xs) s =
        insert_pending (record { id = x.0; bounds64 = b64.encode x.1 }) s
        >>= store_pending_bounds xs

    -- The bytes of an object's entries, by number.
    unfoldable pub object_readers : Option Listing → List (ℕ × Text)
    object_readers none = []
    object_readers (some (array es)) = []
    object_readers (some (object es)) = map (λ x. (x.1.id, b64.decode x.1.bounds64)) es

    unfoldable pub get_pending_bounds_as_byte_readers : js.State → List (ℕ × Text)
    get_pending_bounds_as_byte_readers s = elim (js.get s) [
      | none ↦ []
      | some d ↦ object_readers d.pending
    ]

    unfoldable pub push_heuristic : List GridShape → js.State → js.State
    push_heuristic quads s =
        js.set_data (b64.encode (Grid.serialize quads Writer.new).buf)
          (set_active_heuristic_type e_grid_cell s)

    -- A null pointer for the types that have no class.
    unfoldable pub make_heuristic : HeuristicType → Run Bool
    make_heuristic e_grid_cell = done true
    make_heuristic e_octree = done false
    make_heuristic e_quadtree = done false
    make_heuristic e_none = threw invalid_heuristic
    make_heuristic e_invalid = threw invalid_heuristic

    unfoldable pub read_quads : Text → Run (List GridShape)
    read_quads v = elim (Grid.deserialize (Reader.new (b64.decode (unquote v)))) [
      | err x ↦ threw x
      | ok (quads, _) ↦ done quads
    ]

    unfoldable pub pull_heuristic : js.State → Run (List GridShape)
    pull_heuristic s = make_heuristic (get_active_heuristic_type s) >>= λ made.
        elim (js.get_data s) [
          | none ↦ aborted
          | some v ↦ if made then read_quads v else undefined_run
        ]

    unfoldable pub get_claimed_bound : ℕ → js.State → Run (Option ClaimedBound)
    get_claimed_bound id s = elim (js.select the_claimed id s) [
      | none ↦ done none
      | some es ↦ elim es [
        | [] ↦ undefined_run
        | e ∷ rest ↦ claimed_from_json e >>= λ c. done (some c)
      ]
    ]

    unfoldable pub pull_claimed_bound : ℕ → js.State → Run (Option ClaimedBound)
    pull_claimed_bound id s = elim (js.select the_claimed id s) [
      | none ↦ done none
      | some es ↦ elim es [
        | [] ↦ done none
        | e ∷ rest ↦
            if is_filled rest then aborted else (claimed_from_json e >>= λ c. done (some c))
      ]
    ]

    unfoldable pub shard_from_bound_id : ℕ → js.State → Run (Option NetworkIdentity)
    shard_from_bound_id id s =
        pull_claimed_bound id s >>= λ c. done (elim c [ none ↦ none | some b ↦ some b.identity ])

    unfoldable pub shard_from_position : Floats → Vec3 → js.State → Run (Option NetworkIdentity)
    shard_from_position f p s = pull_heuristic s >>= λ quads. elim (query_position f p quads) [
      | none ↦ undefined_run
      | some b ↦ shard_from_bound_id b.id s
    ]

    unfoldable pub bound_id_from_shard : NetworkIdentity → js.State → Run (Option ℕ)
    bound_id_from_shard who s =
        if who.type == e_shard
        then elim (js.select_owner the_claimed (b64.encode (identity_bytes who)) s) [
          | none ↦ done none
          | some es ↦ elim es [
            | [] ↦ done none
            | e ∷ rest ↦ if is_filled rest then aborted else done (some e.id)
          ]
        ]
        else aborted

    -- The script of `ClaimNextPendingBound`, which runs in one piece: behind the test for the claimed
    -- array, on the pending array.
    unfoldable pub claim_first : Text → Text → Option Listing → js.State → Run (Option ℕ × js.State)
    claim_first owner64 name none s = threw redis_error
    claim_first owner64 name (some (object es)) s = threw redis_error
    claim_first owner64 name (some (array [])) s = done (none, s)
    claim_first owner64 name (some (array (e ∷ es))) s = done (
      some e.id,
      js.pop_first the_pending (js.own_last the_claimed owner64 name (js.append the_claimed e s)),
    )

    unfoldable pub claim_script : Text → Text → js.State → Run (Option ℕ × js.State)
    claim_script owner64 name s =
        let t = js.list_nx the_claimed s in
        elim (js.get t) [ none ↦ threw redis_error | some d ↦ claim_first owner64 name d.pending t ]

    -- `Internal_CreateIBoundInst` and the reading of the bound.
    unfoldable pub read_bound : HeuristicType → Text → Run GridShape
    read_bound e_grid_cell data64 = elim (deserialize_shape (Reader.new (b64.decode data64))) [
      | err x ↦ threw x
      | ok (b, _) ↦ done b
    ]
    read_bound e_none data64 = aborted
    read_bound e_octree data64 = aborted
    read_bound e_quadtree data64 = aborted
    read_bound e_invalid data64 = aborted

    module _ (text : Text → Text) where
      unfoldable pub claim_next_pending_bound :
          NetworkIdentity → js.State → Run (Option GridShape × js.State)
      claim_next_pending_bound who s =
          claim_script (b64.encode (identity_bytes who)) (to_string text who) s >>= λ r. elim r.0 [
            | none ↦ done (none, r.1)
            | some id ↦ get_claimed_bound id r.1 >>= λ c. elim c [
              | none ↦ undefined_run
              | some b ↦ read_bound (get_active_heuristic_type r.1) b.bounds64 >>= λ shape.
                  done (some shape, r.1)
            ]
          ]

      -- `BoundLeaser::ClaimBound`: the bound, which the leaser keeps.
      unfoldable pub claim_bound : NetworkIdentity → js.State → Run (GridShape × js.State)
      claim_bound self s = claim_next_pending_bound self s >>= λ r. elim r.0 [
        | none ↦ aborted
        | some b ↦ bound_id_from_shard self r.1 >>= λ id. elim id [
          | none ↦ threw bad_optional_access
          | some n ↦ if b.id == n then done (b, r.1) else aborted
        ]
      ]
