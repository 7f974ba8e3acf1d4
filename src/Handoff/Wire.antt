-- ===== src/Handoff/Wire.antt =====
-- `SH_HandoffPacketManager` (AtlasNet/lib/Native-exc/EntityHandoff/ServerHandoff). The callbacks that are set
-- are told apart from those that are not; their calls are recorded, and so are the calls of
-- `Interlink::SendMessage`, which Interlink.Send models. The time is an argument. Logging is left out.
use atlas_net.Prelude.{ℕ, Bool, true, false, not, List, [], ◌∷◌, ◌++◌, if◌then◌else◌}
use atlas_net.Entity.Full.{AtlasEntity}
use atlas_net.Network.Identity.{NetworkIdentity}
use atlas_net.Packets.GenericEntity.{GenericEntityPacket, k_protocol_version}

-- What the packet manager calls.
pub data WireCall : Type 0 where
  subscribed : WireCall
  unsubscribed : WireCall
  sent : NetworkIdentity → GenericEntityPacket → WireCall
  on_peer_activity : NetworkIdentity → WireCall
  on_incoming_handoff : AtlasEntity → NetworkIdentity → ℕ → WireCall

pub record HandoffPacketManager : Type 0 where
  pub self_identity : NetworkIdentity
  pub initialized : Bool
  pub incoming_set : Bool
  pub activity_set : Bool

unfoldable pub init : NetworkIdentity → HandoffPacketManager → List WireCall × HandoffPacketManager
init self m = (subscribed ∷ [], record m { self_identity = self; initialized = true })

unfoldable pub shutdown : HandoffPacketManager → List WireCall × HandoffPacketManager
shutdown m = (
  unsubscribed ∷ [],
  record m { initialized = false; incoming_set = false; activity_set = false },
)

unfoldable pub set_callbacks : Bool → Bool → HandoffPacketManager → HandoffPacketManager
set_callbacks incoming activity m = record m { incoming_set = incoming; activity_set = activity }

unfoldable pub send_entity_handoff :
    NetworkIdentity → AtlasEntity → ℕ → ℕ → HandoffPacketManager → List WireCall
send_entity_handoff target e transfer_time_us now_ms m =
    if m.initialized
    then sent target (record {
      sender = m.self_identity;
      entity = e;
      protocol_version = k_protocol_version;
      transfer_tick = transfer_time_us;
      sent_at_ms = now_ms;
    })
      ∷ []
    else []

module _ (same : NetworkIdentity → NetworkIdentity → Bool) where
  unfoldable pub on_generic_entity_packet :
      GenericEntityPacket → HandoffPacketManager → List WireCall
  on_generic_entity_packet p m =
      if not m.initialized
      then []
      else if same p.sender m.self_identity
      then []
      else (if m.activity_set then on_peer_activity p.sender ∷ [] else [])
        ++ (if m.incoming_set
            then on_incoming_handoff p.entity p.sender p.transfer_tick ∷ []
            else [])
