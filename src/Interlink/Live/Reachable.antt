-- ===== src/Interlink/Live/Reachable.antt =====
-- The states of the connections along the steps of Interlink.Steps.
use atlas_net.Prelude.{Bool, none}
use atlas_net.Network.Identity.{NetworkIdentity}
use atlas_net.Interlink.Run.{After, After-bind, After-done}
use atlas_net.Interlink.State.{Interlink}
use atlas_net.Interlink.Send.{establish_connection_to}
use atlas_net.Interlink.Callbacks.{generate_new_connections}
use atlas_net.Interlink.Steps.{
  Input, sends, establishes, establishes_at, closes, generates, reports, step, Reach, here, next,
}
use atlas_net.Interlink.Live.{IsLive}
use atlas_net.Interlink.Live.Tables.{connect_all-Live}
use atlas_net.Interlink.Live.Sending.{
  establish_at-Live, establish-Live, send_message-Live, close_connection_to-Live,
}
use atlas_net.Interlink.Live.Reports.{reports-Live}

module _ (same : NetworkIdentity → NetworkIdentity → Bool) where
  step-Live : (i : Input) (s : Interlink) → IsLive s → After IsLive (step same i s)
  unfolding step generate_new_connections
  step-Live (sends lookup who m) s v = send_message-Live same lookup who m s v
  step-Live (establishes lookup who) s v =
      After-bind (λ r. IsLive r.1) IsLive (establish_connection_to same lookup who s) _
        (establish-Live same lookup who s v) (λ r w. w)
  step-Live (establishes_at who address) s v = establish_at-Live same (λ w n. none) who address s v
  step-Live (closes who) s v = close_connection_to-Live same (λ w n. none) who s v
  step-Live (generates answer) s v = connect_all-Live answer 0 s.connections v
  step-Live (reports lookup r) s v = reports-Live same lookup r s v

  -- From a state in which every connection is under way, and has a handle if it is connected, no
  -- sequence of calls of the process and the transport leads to another; in particular no connection
  -- is ever invalid, disconnecting, closed or in error.
  pub Reach-IsLive : (s t : Interlink) → Reach same s t → IsLive s → IsLive t
  Reach-IsLive s t here v = v
  Reach-IsLive s t (next {t = r} i _ path e) v =
      After-done IsLive (step same i r) t (step-Live i r (Reach-IsLive s r path v)) e
