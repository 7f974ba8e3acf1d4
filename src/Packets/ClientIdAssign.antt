-- ===== src/Packets/ClientIdAssign.antt =====
-- AtlasNet/lib/Native/Network/Packet/Client/ClientIDAssignPacket.hpp
use atlas_net.Prelude.{Bool, not}
use atlas_net.Bytes.Writer.{Write}
use atlas_net.Bytes.Reader.{Read, ◌>>=◌, return}
use atlas_net.Bytes.Codec.{RoundTrips, RoundTrips-map}
use atlas_net.Network.Identity
use atlas_net.Network.Identity.{NetworkIdentity, IsIdentity, RoundTrips-identity, is_nil}
use mathlib.Core.Path.{refl}

pub record ClientIdAssignPacket : Type 0 where
  pub assigned_client_id : NetworkIdentity

unfoldable pub serialize_data : ClientIdAssignPacket → Write
serialize_data p w = Identity.serialize p.assigned_client_id w

unfoldable pub deserialize_data : Read ClientIdAssignPacket
deserialize_data = do id ← Identity.deserialize; return (record { assigned_client_id = id })

unfoldable pub validate_data : ClientIdAssignPacket → Bool
validate_data p = not (is_nil p.assigned_client_id.id)

pub RoundTrips-assign :
    (p : ClientIdAssignPacket)
    → IsIdentity p.assigned_client_id
    → RoundTrips (serialize_data p) deserialize_data p
unfolding serialize_data deserialize_data
RoundTrips-assign p h =
    RoundTrips-map _ _ _ p.assigned_client_id p refl (RoundTrips-identity p.assigned_client_id h)
