-- ===== src/Interlink/Live/Sending.antt =====
-- The states of the connections when the process establishes, closes or sends.
use atlas_net.Prelude.{refl, ◌==◌, Bool, Bool-cases, Option-cases, inl, inr}
use atlas_net.Network.Identity.{NetworkIdentity, is_internal, e_game_client}
use atlas_net.Packets.Packet.{validate}
use atlas_net.Interlink.Run.{After, After-bind, After-if, After-option}
use atlas_net.Interlink.Connection.{
  Connection, set_new_state, Address, is_pending, is_connected, is_pre_connecting,
}
use atlas_net.Interlink.Table.{find_target}
use atlas_net.Interlink.State.{Interlink, Waiting, call}
use atlas_net.Interlink.Send.{
  Lookup, ask, under_way, establish_connection_at_ip, establish_new, establish_connection_to,
  close_connection_to, queue_message, establish_and_queue, send_over, route, send_message,
}
use atlas_net.Interlink.Steps.{new}
use atlas_net.Interlink.Live.{IsLive}
use atlas_net.Interlink.Live.Tables.{insert-Live, erase_target-Live}

module _ (same : NetworkIdentity → NetworkIdentity → Bool) (lookup : Lookup) where
  pub establish_at-Live :
      (who : NetworkIdentity) (address : Address) (s : Interlink)
      → IsLive s
      → IsLive (establish_connection_at_ip same who address s).1
  unfolding establish_connection_at_ip set_new_state is_pre_connecting
  establish_at-Live who address s v = elim (Bool-cases (under_way same who s)) [
    | inl there ↦ rw there v
    | inr new ↦ rw new (insert-Live _ s (inl refl) v)
  ]

  pub establish_new-Live :
      (who : NetworkIdentity) (s : Interlink)
      → IsLive s
      → IsLive (establish_new same lookup who s).1
  unfolding establish_new set_new_state is_pre_connecting
  establish_new-Live who s v = elim (Bool-cases (is_internal who)) [
    | inl inside ↦ elim (Option-cases (ask lookup who 0 5)) [
      | inl unknown ↦ rw (inside, unknown) v
      | inr (a, known) ↦ rw (inside, known) (insert-Live _ s (inl refl) v)
    ]
    | inr outside ↦ elim (Bool-cases (who.type == e_game_client)) [
      | inl client ↦ rw (outside, client) v
      | inr strange ↦ rw (outside, strange) v
    ]
  ]

  pub establish-Live :
      (who : NetworkIdentity) (s : Interlink)
      → IsLive s
      → After (λ r. IsLive r.1) (establish_connection_to same lookup who s)
  unfolding establish_connection_to
  establish-Live who s v =
      After-if (λ r. IsLive r.1) (s.self_id.type == e_game_client) _ _ (λ client. tt)
        (λ process.
          After-if (λ r. IsLive r.1) (under_way same who s) _ _ (λ there. v)
            (λ new. establish_new-Live who s v))

  pub establish_and_queue-Live :
      (who : NetworkIdentity) (m : Waiting) (s : Interlink)
      → IsLive s
      → After IsLive (establish_and_queue same lookup who m s)
  unfolding establish_and_queue queue_message
  establish_and_queue-Live who m s v =
      After-bind (λ r. IsLive r.1) IsLive (establish_connection_to same lookup who s) _
        (establish-Live who s v) (λ r h. h)

  pub send_over-Live :
      (c : Connection) (m : Waiting) (s : Interlink)
      → IsLive s
      → After IsLive (send_over same c m s)
  unfolding send_over call
  send_over-Live c m s v = After-option IsLive c.steam _ _ (λ unset. tt) (λ h set. v)

  pub route-Live :
      (who : NetworkIdentity) (m : Waiting) (s : Interlink)
      → IsLive s
      → After IsLive (route same lookup who m s)
  unfolding route queue_message
  route-Live who m s v =
      After-option IsLive (find_target same who s.connections) _ _
        (λ unknown. establish_and_queue-Live who m s v)
        (λ c known.
          After-if IsLive (is_connected c.state) _ _ (λ there. send_over-Live c m s v)
            (λ away.
              After-if IsLive (is_pending c.state) _ _ (λ soon. v)
                (λ gone. establish_and_queue-Live who m s v)))

  pub send_message-Live :
      (who : NetworkIdentity) (m : Waiting) (s : Interlink)
      → IsLive s
      → After IsLive (send_message same lookup who m s)
  unfolding send_message
  send_message-Live who m s v =
      After-if IsLive s.is_init _ _
        (λ up. After-if IsLive (validate m.0) _ _ (λ valid. route-Live who m s v) (λ broken. tt))
        (λ early. tt)

  pub close_connection_to-Live :
      (who : NetworkIdentity) (s : Interlink)
      → IsLive s
      → After IsLive (close_connection_to same who s)
  unfolding close_connection_to call
  close_connection_to-Live who s v =
      After-option IsLive (find_target same who s.connections) _ _ (λ unknown. v)
        (λ c known.
          After-option IsLive c.steam _ _ (λ unset. tt)
            (λ h set. erase_target-Live same who s.connections v))
