-- ===== src/Manifest/Claimed.antt =====
-- The other methods of `HeuristicManifest` on the claimed bounds: `Internal_InsertClaimedBound`,
-- `ClaimedBoundStruct::to_json` and `GetClaimedBoundsAsByteReaders`.
use atlas_net.Prelude.{
  ℕ, ◌<◌, ◌^◌, ◌≡◌, Bool, List, [], ◌∷◌, Option, some, none, if◌then◌else◌, length,
}
use atlas_net.Network.Identity.{NetworkIdentity, IsIdentity}
use atlas_net.Network.Names.{to_string}
use atlas_net.Interlink.Run.{Run, done, aborted, ◌>>=◌}
use atlas_net.Manifest.Documents.{Text, Entry, Listing, array, object, Documents, the_claimed}
use atlas_net.Manifest.Bounds.{Base64, ClaimedBound, is_filled, identity_bytes, claimed_from_json}
use atlas_net.Manifest.Claim.{claimed_from_json_lem}

module _ (js : Documents) (b64 : Base64) where
  module _ (text : Text → Text) where
    unfoldable pub claimed_to_json : ClaimedBound → Entry
    claimed_to_json c = record {
      id = c.id;
      bounds64 = c.bounds64;
      owner64 = some (b64.encode (identity_bytes c.identity));
      owner_name = some (to_string text c.identity);
    }

    -- `Internal_InsertClaimedBound`
    unfoldable pub insert_claimed : ClaimedBound → js.State → Run js.State
    insert_claimed c s =
        let t = js.list_nx the_claimed s in
        elim (js.select the_claimed c.id t) [
          | none ↦ done (js.append the_claimed (claimed_to_json c) t)
          | some es ↦
              if is_filled es then aborted else done (js.append the_claimed (claimed_to_json c) t)
        ]

    pub claimed_from_json-claimed_to_json :
        (c : ClaimedBound)
        → IsIdentity c.identity
        → length (identity_bytes c.identity) < 2 ^ 64
        → claimed_from_json js b64 (claimed_to_json c) ≡ done c
    unfolding claimed_to_json
    claimed_from_json-claimed_to_json c fits short =
        claimed_from_json_lem js b64 c.id c.bounds64 c.identity (some (to_string text c.identity))
          fits short

  -- `brs.emplace` keeps what is there.
  unfoldable pub emplace_reader :
      (NetworkIdentity → NetworkIdentity → Bool)
      → ClaimedBound
      → List (NetworkIdentity × ℕ × Text)
      → List (NetworkIdentity × ℕ × Text)
  emplace_reader same c [] = (c.identity, c.id, b64.decode c.bounds64) ∷ []
  emplace_reader same c (x ∷ xs) =
      let rest = emplace_reader same c xs in if same x.0 c.identity then x ∷ xs else x ∷ rest

  unfoldable pub read_claimed :
      (NetworkIdentity → NetworkIdentity → Bool)
      → List (Text × Entry)
      → List (NetworkIdentity × ℕ × Text)
      → Run (List (NetworkIdentity × ℕ × Text))
  read_claimed same [] brs = done brs
  read_claimed same (x ∷ xs) brs =
      claimed_from_json js b64 x.1 >>= λ c. read_claimed same xs (emplace_reader same c brs)

  unfoldable pub claimed_readers :
      (NetworkIdentity → NetworkIdentity → Bool)
      → Option Listing
      → Run (List (NetworkIdentity × ℕ × Text))
  claimed_readers same none = done []
  claimed_readers same (some (array es)) = done []
  claimed_readers same (some (object es)) = read_claimed same es []

  unfoldable pub get_claimed_bounds_as_byte_readers :
      (NetworkIdentity → NetworkIdentity → Bool)
      → js.State
      → Run (List (NetworkIdentity × ℕ × Text))
  get_claimed_bounds_as_byte_readers same s = elim (js.get s) [
    | none ↦ done []
    | some d ↦ claimed_readers same d.claimed
  ]
