-- ===== src/Interlink/Table.antt =====
-- `Connections`, the container with an index by target and one by handle. Both are ordered and not
-- unique; among equal keys the container finds the one that was inserted first. The list is in the
-- order of insertion.
use atlas_net.Prelude.{ℕ, Bool, false, ◌==◌, List, [], ◌∷◌, Option, some, none, if◌then◌else◌}
use atlas_net.Network.Identity.{NetworkIdentity}
use atlas_net.Interlink.Connection.{Connection}

-- A handle that is not set is an uninitialised member in the source, which the index compares all the
-- same. The model takes it to be different from every handle that the transport gives.
unfoldable pub has_handle : ℕ → Connection → Bool
has_handle h c = elim c.steam [ none ↦ false | some k ↦ k == h ]

unfoldable pub find_handle : ℕ → List Connection → Option Connection
find_handle h [] = none
find_handle h (c ∷ cs) = let rest = find_handle h cs in if has_handle h c then some c else rest

unfoldable pub modify_handle : ℕ → (Connection → Connection) → List Connection → List Connection
modify_handle h f [] = []
modify_handle h f (c ∷ cs) =
    let rest = modify_handle h f cs in if has_handle h c then f c ∷ cs else c ∷ rest

unfoldable pub erase_handle : ℕ → List Connection → List Connection
erase_handle h [] = []
erase_handle h (c ∷ cs) = let rest = erase_handle h cs in if has_handle h c then cs else c ∷ rest

-- `same` is the comparison of identities.
module _ (same : NetworkIdentity → NetworkIdentity → Bool) where
  unfoldable pub find_target : NetworkIdentity → List Connection → Option Connection
  find_target who [] = none
  find_target who (c ∷ cs) =
      let rest = find_target who cs in if same c.target who then some c else rest

  unfoldable pub erase_target : NetworkIdentity → List Connection → List Connection
  erase_target who [] = []
  erase_target who (c ∷ cs) =
      let rest = erase_target who cs in if same c.target who then cs else c ∷ rest
