-- ===== src/Interlink/State.antt =====
-- The state of `Interlink`, and what it asks of the outside.
use atlas_net.Prelude.{ℕ, Bool, List, [], ◌∷◌, ◌++◌, if◌then◌else◌}
use atlas_net.Network.Identity.{NetworkIdentity}
use atlas_net.Packets.Packet.{Packet}
use atlas_net.Interlink.Connection.{Connection, Address}

-- `NetworkMessageSendFlag`
pub data SendFlag : Type 0 where
  e_immediate_or_drop e_unreliable_now e_unreliable_batched e_reliable_now e_reliable_batched :
      SendFlag

-- The calls of the transport, the client manifest, the event system and the handshake service.
pub data Call : Type 0 where
  connect : Address → Call
  accept : ℕ → Call
  close : ℕ → Call
  set_poll_group : ℕ → Call
  send : ℕ → List ℕ → SendFlag → Call
  register_client : List ℕ → Address → Call
  assign_proxy : List ℕ → NetworkIdentity → Call
  dispatch_client_connect : List ℕ → NetworkIdentity → Call
  handshake : List ℕ → Call

-- A packet that waits, with its flag.
abbrev pub Waiting : Type 0
Waiting = Packet × SendFlag

abbrev pub Queues : Type 0
Queues = List (NetworkIdentity × List Waiting)

-- `self_id` is the identity of `NetworkCredentials`; `calls` are those made so far, oldest first.
pub record Interlink : Type 0 where
  pub self_id : NetworkIdentity
  pub is_init : Bool
  pub connections : List Connection
  pub queued : Queues
  pub calls : List Call

unfoldable pub call : Call → Interlink → Interlink
call c s = record s { calls = s.calls ++ c ∷ [] }

module _ (same : NetworkIdentity → NetworkIdentity → Bool) where
  -- `QueuedPacketsOnConnect[who]`, with the empty vector for a key that is not there.
  unfoldable pub queue_of : NetworkIdentity → Queues → List Waiting
  queue_of who [] = []
  queue_of who ((k, ms) ∷ rest) = let later = queue_of who rest in if same k who then ms else later

  unfoldable pub queue_push : NetworkIdentity → Waiting → Queues → Queues
  queue_push who m [] = (who, m ∷ []) ∷ []
  queue_push who m ((k, ms) ∷ rest) =
      let later = queue_push who m rest in
      if same k who then (k, ms ++ m ∷ []) ∷ rest else (k, ms) ∷ later

  unfoldable pub queue_erase : NetworkIdentity → Queues → Queues
  queue_erase who [] = []
  queue_erase who ((k, ms) ∷ rest) =
      let later = queue_erase who rest in if same k who then later else (k, ms) ∷ later
