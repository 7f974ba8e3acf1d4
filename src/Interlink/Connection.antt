-- ===== src/Interlink/Connection.antt =====
-- `Connection` (AtlasNet/lib/Native/Network/Connection.hpp and .cpp) with the enumerations of
-- NetworkEnums.hpp. An address is what `SteamNetworkingIPAddr` holds, a handle is the number that the
-- transport gives a connection. A member that nothing has set yet is `none`.
use atlas_net.Prelude.{ℕ, Bool, true, false, List, Option, some, none, ◌||◌}
use atlas_net.Network.Identity.{NetworkIdentity}

pub data ConnectionState : Type 0 where
  invalid pre_connecting connecting connected disconnecting closed error : ConnectionState

pub data ConnectionKind : Type 0 where
  internal external : ConnectionKind

abbrev pub Address : Type 0
Address = List ℕ

pub record Connection : Type 0 where
  pub address : Address
  pub old_state : Option ConnectionState
  pub state : Option ConnectionState
  pub target : NetworkIdentity
  pub steam : Option ℕ
  pub kind : ConnectionKind

-- `SetNewState`
unfoldable pub set_new_state : ConnectionState → Connection → Connection
set_new_state new c = record c { old_state = c.state; state = some new }

unfoldable pub make : NetworkIdentity → Address → ConnectionKind → Option ℕ → Connection
make target address kind steam = record {
  address = address;
  old_state = none;
  state = none;
  target = target;
  steam = steam;
  kind = kind;
}

-- The tests on the state of a connection.
unfoldable pub is_connected : Option ConnectionState → Bool
is_connected (some connected) = true
is_connected _ = false

unfoldable pub is_pre_connecting : Option ConnectionState → Bool
is_pre_connecting (some pre_connecting) = true
is_pre_connecting _ = false

unfoldable pub is_connecting : Option ConnectionState → Bool
is_connecting (some connecting) = true
is_connecting _ = false

abbrev pub is_pending : Option ConnectionState → Bool
is_pending st = is_pre_connecting st || is_connecting st
