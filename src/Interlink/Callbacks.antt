-- ===== src/Interlink/Callbacks.antt =====
-- The connection callbacks of the transport, and `GenerateNewConnections`. What the transport answers
-- is a parameter, and so are the new UUIDs.
use atlas_net.Prelude.{
  ℕ, suc, ◌==◌, Bool, List, [], ◌∷◌, ◌++◌, length, Option, some, none, if◌then◌else◌,
}
use atlas_net.Bytes.Result.{ok, err}
use atlas_net.Bytes.Reader
use atlas_net.Network.Identity
use atlas_net.Network.Identity.{
  NetworkIdentity, is_internal, is_nil, nil_uuid, e_invalid, e_game_client,
}
use atlas_net.Packets.Packet.{Packet, type_id, client_id_assign, client_id_assign_body}
use atlas_net.Interlink.Run.{Run, done, aborted, threw, ◌>>=◌}
use atlas_net.Interlink.Connection.{
  Connection, is_pre_connecting, connecting, connected, Address, make, set_new_state, internal,
  external,
}
use atlas_net.Interlink.Table.{find_handle, modify_handle, erase_handle}
use atlas_net.Interlink.State.{
  Interlink, Waiting, e_reliable_now, Call, connect, accept, close, set_poll_group, register_client,
  assign_proxy, dispatch_client_connect, handshake, call, queue_of, queue_erase,
}
use atlas_net.Interlink.Send.{Lookup, insert, send_message}

-- The loop over the connections that wait for their first attempt; `answer n` is the handle that the
-- attempt `n` of this round gives, if any.
unfoldable pub connect_one : Option ℕ → Connection → Connection
connect_one none c = c
connect_one (some h) c = record c { steam = some h }

unfoldable pub connect_all : (ℕ → Option ℕ) → ℕ → List Connection → List Connection × List Call
connect_all answer n [] = ([], [])
connect_all answer n (c ∷ cs) =
    let next = connect_all answer (suc n) cs in
    let other = connect_all answer n cs in
    if is_pre_connecting c.state
    then (connect_one (answer n) c ∷ next.0, connect c.address ∷ next.1)
    else (c ∷ other.0, other.1)

unfoldable pub generate_new_connections : (ℕ → Option ℕ) → Interlink → Interlink
generate_new_connections answer s =
    let r = connect_all answer 0 s.connections in
    record s { connections = r.0; calls = s.calls ++ r.1 }

unfoldable pub modify : ℕ → (Connection → Connection) → Interlink → Interlink
modify h f s = record s { connections = modify_handle h f s.connections }

-- The identity of the remote end; `none` is an identity without generic bytes.
unfoldable pub remote_identity : Option (List ℕ) → Run NetworkIdentity
remote_identity none = done (record { type = e_invalid; id = nil_uuid })
remote_identity (some bytes) = elim (Identity.deserialize (Reader.new bytes)) [
  | err e ↦ threw e
  | ok (n, _) ↦ done n
]

-- A connection that the other end has opened. Whether the registry knows it is only logged.
unfoldable pub on_incoming : ℕ → Address → NetworkIdentity → Bool → Interlink → Interlink
on_incoming h address id accepted s =
    let tried = call (accept h) s in
    if accepted
    then insert
        (set_new_state connecting
          (make id address (if is_internal id then internal else external) (some h)))
        tried
    else call (close h) tried

unfoldable pub callback_on_connecting :
    ℕ → Address → Option (List ℕ) → Bool → Interlink → Run Interlink
callback_on_connecting h address bytes accepted s = elim (find_handle h s.connections) [
  | some c ↦ done (modify h (set_new_state connecting) s)
  | none ↦ remote_identity bytes >>= λ id. done (on_incoming h address id accepted s)
]

unfoldable pub callback_on_closed_by_peer : ℕ → Interlink → Interlink
callback_on_closed_by_peer h s = elim (find_handle h s.connections) [
  | none ↦ s
  | some c ↦ record (call (close h) s) { connections = erase_handle h s.connections }
]

unfoldable pub callback_on_problem_detected_locally : ℕ → Interlink → Interlink
callback_on_problem_detected_locally h s = elim (find_handle h s.connections) [
  | none ↦ s
  | some c ↦ record s { connections = erase_handle h s.connections }
]

unfoldable pub assign_packet : NetworkIdentity → Packet
assign_packet n = record {
  packet_type = type_id client_id_assign;
  body = client_id_assign_body (record { assigned_client_id = n });
}

-- What the transport reports of a connection.
pub data Report : Type 0 where
  reports_connecting : ℕ → Address → Option (List ℕ) → Bool → Report
  reports_connected : ℕ → Option (List ℕ) → List ℕ → Report
  reports_closed_by_peer : ℕ → Report
  reports_problem : ℕ → Report
  reports_other : Report

module _ (same : NetworkIdentity → NetworkIdentity → Bool) (lookup : Lookup) where
  -- The client with its address is registered, its proxy noted, the event sent out.
  unfoldable pub announce_client : NetworkIdentity → Address → Interlink → Interlink
  announce_client n address s = call (handshake n.id) (
      call (dispatch_client_connect n.id s.self_id)
        (call (assign_proxy n.id s.self_id) (call (register_client n.id address) s)))

  unfoldable pub assign_identity : ℕ → NetworkIdentity → Connection → Interlink → Run Interlink
  assign_identity h n c s =
      send_message same lookup n (assign_packet n, e_reliable_now)
        (modify h (λ k. record k { target = n }) s)
      >>= λ t. done (announce_client n c.address t)

  unfoldable pub on_client_connected : ℕ → List ℕ → Connection → Interlink → Run Interlink
  on_client_connected h new_id c s =
      if c.target.type == e_game_client
      then (if is_nil c.target.id
          then assign_identity h (record c.target { id = new_id }) c s
          else done s)
      else aborted

  -- The loop over the vector of waiting packets. A packet that is put into the same vector while the
  -- loop runs over it leaves the loop with dangling iterators.
  unfoldable pub flush_loop : NetworkIdentity → List Waiting → Interlink → Run Interlink
  flush_loop who [] s = done s
  flush_loop who (m ∷ ms) s = send_message same lookup who m s >>= λ t.
      if length (queue_of same who t.queued) == length (queue_of same who s.queued)
      then flush_loop who ms t
      else Run.undefined_run

  unfoldable pub flush : NetworkIdentity → Interlink → Run Interlink
  flush who s = elim (queue_of same who s.queued) [
    | [] ↦ done s
    | m ∷ ms ↦ flush_loop who (m ∷ ms) s >>= λ t.
        done (record t { queued = queue_erase same who t.queued })
  ]

  -- Behind `OnClientConnected`: the packets for whoever the connection's target is by now.
  unfoldable pub flush_handle : ℕ → Interlink → Run Interlink
  flush_handle h s = elim (find_handle h s.connections) [
    | none ↦ Run.undefined_run
    | some c ↦ flush c.target s
  ]

  unfoldable pub callback_on_connected : ℕ → Option (List ℕ) → List ℕ → Interlink → Run Interlink
  callback_on_connected h bytes new_id s = elim (find_handle h s.connections) [
    | none ↦ remote_identity bytes >>= λ id. aborted
    | some c ↦
        let t = call (set_poll_group h) (modify h (set_new_state connected) s) in
        if is_internal c.target
        then flush_handle h t
        else (on_client_connected h new_id (set_new_state connected c) t >>= flush_handle h)
  ]

  unfoldable pub on_connection_status_changed : Report → Interlink → Run Interlink
  on_connection_status_changed (reports_connecting h address bytes accepted) s =
      callback_on_connecting h address bytes accepted s
  on_connection_status_changed (reports_connected h bytes new_id) s =
      callback_on_connected h bytes new_id s
  on_connection_status_changed (reports_closed_by_peer h) s = done (callback_on_closed_by_peer h s)
  on_connection_status_changed (reports_problem h) s =
      done (callback_on_problem_detected_locally h s)
  on_connection_status_changed reports_other s = done s
