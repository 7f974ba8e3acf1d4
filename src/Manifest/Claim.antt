-- ===== src/Manifest/Claim.antt =====
-- `HeuristicManifest::ClaimNextPendingBound` gives a bound to one shard.
use atlas_net.Prelude.{ℕ, ◌^◌, ◌<◌, ◌≡◌, refl, List, [], ◌∷◌, ◌++◌, Option, some, length}
use atlas_net.Bytes.Writer
use atlas_net.Bytes.Codec.{read-written}
use atlas_net.Network.Identity
use atlas_net.Network.Identity.{NetworkIdentity, IsIdentity, RoundTrips-identity}
use atlas_net.Network.Names.{to_string}
use atlas_net.Heuristic.Grid.{
  GridShape, IsShape, RoundTrips-shape, serialize_shape, deserialize_shape,
}
use atlas_net.Interlink.Run.{done}
use atlas_net.Manifest.Types.{e_grid_cell}
use atlas_net.Manifest.Documents.{
  Text, Entry, Documents, the_pending, the_claimed, having_id, owned,
}
use atlas_net.Manifest.Bounds.{
  Base64, pending_to_json, identity_bytes, claimed_from_json, get_claimed_bound, pull_claimed_bound,
  shard_from_bound_id, claim_first, claim_script, read_bound, claim_next_pending_bound,
}
use atlas_net.Manifest.Tables.{
  IsListed, IsOffered, append-IsListed, own_last-IsListed, pop_first-IsListed, list_nx-IsListed,
  selected_last, active_type,
}

module _ (js : Documents) where
  module _ (b64 : Base64) where
    abbrev after_script : Text → Text → js.State → Entry → js.State
    after_script o n s e =
        js.pop_first the_pending
          (js.own_last the_claimed o n (js.append the_claimed e (js.list_nx the_claimed s)))

    claim_script_lem :
        (o n : Text) (s : js.State) (e : Entry) (ps cs : List Entry)
        → IsOffered js s (e ∷ ps) cs
        → (claim_script js b64 o n s ≡ done (some e.id, after_script o n s e))
          × IsListed js (after_script o n s e) ps (cs ++ owned o n e ∷ [])
    unfolding claim_script claim_first
    claim_script_lem o n s e ps cs h =
        let t = list_nx-IsListed js s (e ∷ ps) cs h in
        let s1 = js.list_nx the_claimed s in
        (
          rw (claim_script, t.there, t.pending_is) refl,
          pop_first-IsListed js (js.own_last the_claimed o n (js.append the_claimed e s1)) e ps
              (cs ++ owned o n e ∷ [])
              (own_last-IsListed js (js.append the_claimed e s1) (e ∷ ps) cs e o n
                (append-IsListed js s1 (e ∷ ps) cs e t)),
        )

    -- The bytes that an identity became give it back.
    pub claimed_from_json_lem :
        (id : ℕ) (data64 : Text) (who : NetworkIdentity) (n : Option Text)
        → IsIdentity who
        → length (identity_bytes who) < 2 ^ 64
        → claimed_from_json js b64 (record {
          id = id;
          bounds64 = data64;
          owner64 = some (b64.encode (identity_bytes who));
          owner_name = n;
        })
          ≡ done (record { id = id; identity = who; bounds64 = data64 })
    unfolding claimed_from_json identity_bytes
    claimed_from_json_lem id data64 who n fits short =
        rw
          (
            claimed_from_json,
            b64.decode-encode (identity_bytes who),
            read-written (Identity.serialize who) Identity.deserialize who
                (RoundTrips-identity who fits) short,
          )
          refl

    abbrev shape64 : GridShape → Text
    shape64 b = b64.encode (serialize_shape b Writer.new).buf

    read_bound_lem :
        (b : GridShape)
        → IsShape b
        → length (serialize_shape b Writer.new).buf < 2 ^ 64
        → read_bound js b64 e_grid_cell (shape64 b) ≡ done b
    unfolding read_bound
    read_bound_lem b fits short =
        rw
          (
            read_bound,
            b64.decode-encode (serialize_shape b Writer.new).buf,
            read-written (serialize_shape b) deserialize_shape b (RoundTrips-shape b fits) short,
          )
          refl

    -- What the manifest lists of a bound, pending and claimed.
    abbrev pub offered : GridShape → Entry
    offered b = pending_to_json (record { id = b.id; bounds64 = shape64 b })

    abbrev pub leased : (Text → Text) → NetworkIdentity → GridShape → Entry
    leased text who b = owned (b64.encode (identity_bytes who)) (to_string text who) (offered b)

    -- What a claim leaves behind.
    abbrev pub after_claim : (Text → Text) → NetworkIdentity → GridShape → js.State → js.State
    after_claim text who b s =
        after_script (b64.encode (identity_bytes who)) (to_string text who) s (offered b)

    module _ (text : Text → Text) (who : NetworkIdentity) (b : GridShape) (ps cs : List Entry)
        (s : js.State) (known : IsIdentity who) (short : length (identity_bytes who) < 2 ^ 64)
        (fits : IsShape b) (small : length (serialize_shape b Writer.new).buf < 2 ^ 64)
        (fresh : having_id b.id cs ≡ []) (h : IsOffered js s (offered b ∷ ps) cs) where
      scripted :
          (claim_script js b64 (b64.encode (identity_bytes who)) (to_string text who) s
            ≡ done (some b.id, after_claim text who b s))
          × IsListed js (after_claim text who b s) ps (cs ++ leased text who b ∷ [])
      unfolding pending_to_json
      scripted =
          claim_script_lem (b64.encode (identity_bytes who)) (to_string text who) s (offered b) ps
            cs h

      found : js.select the_claimed b.id (after_claim text who b s) ≡ some (leased text who b ∷ [])
      unfolding pending_to_json
      found = selected_last js (after_claim text who b s) ps cs (leased text who b) scripted.1 fresh

      from_json :
          claimed_from_json js b64 (leased text who b)
          ≡ done (record { id = b.id; identity = who; bounds64 = shape64 b })
      unfolding pending_to_json
      from_json = claimed_from_json_lem b.id (shape64 b) who (some (to_string text who)) known short

      got :
          get_claimed_bound js b64 b.id (after_claim text who b s)
          ≡ done (some (record { id = b.id; identity = who; bounds64 = shape64 b }))
      unfolding get_claimed_bound
      got = rw (get_claimed_bound, found, from_json) refl

      -- The database has a table whose heuristic is a grid, whose first pending bound is the bound `b` and
      -- whose claimed bounds, none of them with the number of `b`, are `cs`; the members of `b` and of the
      -- identity `who` fit their types, and their bytes are fewer than 2 ^ 64. Then
      -- `ClaimNextPendingBound` returns `b` to `who`, the other pending bounds are left in their order,
      -- `b` stands behind the claimed ones as owned by `who`, and `ShardFromBoundID` now finds `who` under
      -- the number of `b`.
      pub claim_next_pending_bound_lem :
          (claim_next_pending_bound js b64 text who s ≡ done (some b, after_claim text who b s))
          × IsListed js (after_claim text who b s) ps (cs ++ leased text who b ∷ [])
          × (shard_from_bound_id js b64 b.id (after_claim text who b s) ≡ done (some who))
      unfolding claim_next_pending_bound shard_from_bound_id pull_claimed_bound
      claim_next_pending_bound_lem = (
        rw
            (
              claim_next_pending_bound,
              scripted.0,
              got,
              active_type js (after_claim text who b s) scripted.1.doc scripted.1.there
                  scripted.1.grid,
              read_bound_lem b fits small,
            )
            refl,
        scripted.1,
        rw (shard_from_bound_id, pull_claimed_bound, found, from_json) refl,
      )
