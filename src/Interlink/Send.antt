-- ===== src/Interlink/Send.antt =====
-- `EstablishConnectionTo`, `EstablishConnectionAtIP`, `CloseConnectionTo` and `SendMessage`. What
-- the server registry answers is a parameter: `lookup who n` is the answer to the question `n`.
use atlas_net.Prelude.{
  ℕ, zero, suc, ◌+◌, ◌==◌, Bool, true, false, ◌||◌, [], ◌∷◌, ◌++◌, Option, some, none,
  if◌then◌else◌,
}
use atlas_net.Bytes.Writer
use atlas_net.Network.Identity.{NetworkIdentity, is_internal, e_game_client}
use atlas_net.Packets.Packet.{serialize, validate}
use atlas_net.Interlink.Run.{Run, done, aborted, undefined_run, ◌>>=◌}
use atlas_net.Interlink.Connection.{
  Connection, pre_connecting, Address, make, set_new_state, internal, external, is_connected,
  is_pending,
}
use atlas_net.Interlink.Table.{find_target, erase_target}
use atlas_net.Interlink.State.{Interlink, Waiting, close, send, call, queue_push}

abbrev pub Lookup : Type 0
Lookup = NetworkIdentity → ℕ → Option Address

-- The question is put again while there is no answer, `left` times at most.
unfoldable pub ask : Lookup → NetworkIdentity → ℕ → ℕ → Option Address
ask lookup who n zero = lookup who n
ask lookup who n (suc left) =
    let again = ask lookup who (n + 1) left in
    elim (lookup who n) [ some a ↦ some a | none ↦ again ]

unfoldable pub insert : Connection → Interlink → Interlink
insert c s = record s { connections = s.connections ++ c ∷ [] }

module _ (same : NetworkIdentity → NetworkIdentity → Bool) where
  -- A connection that is there or on its way.
  unfoldable pub under_way : NetworkIdentity → Interlink → Bool
  under_way who s = elim (find_target same who s.connections) [
    | none ↦ false
    | some c ↦ is_connected c.state || is_pending c.state
  ]

  unfoldable pub establish_connection_at_ip :
      NetworkIdentity → Address → Interlink → Bool × Interlink
  establish_connection_at_ip who address s =
      if under_way who s
      then (true, s)
      else (true, insert (set_new_state pre_connecting (make who address external none)) s)

  -- Behind the test for an attempt that is under way.
  unfoldable pub establish_new : Lookup → NetworkIdentity → Interlink → Bool × Interlink
  establish_new lookup who s =
      if is_internal who
      then elim (ask lookup who 0 5) [
        | none ↦ (false, s)
        | some a ↦ (true, insert (set_new_state pre_connecting (make who a internal none)) s)
      ]
      else if who.type == e_game_client
      then (true, s)
      else (false, s)

  unfoldable pub establish_connection_to :
      Lookup → NetworkIdentity → Interlink → Run (Bool × Interlink)
  establish_connection_to lookup who s =
      if s.self_id.type == e_game_client
      then aborted
      else if under_way who s
      then done (true, s)
      else done (establish_new lookup who s)

  unfoldable pub close_connection_to : NetworkIdentity → Interlink → Run Interlink
  close_connection_to who s = elim (find_target same who s.connections) [
    | none ↦ done s
    | some c ↦ elim c.steam [
      | none ↦ undefined_run
      | some h ↦
          done (record (call (close h) s) { connections = erase_target same who s.connections })
    ]
  ]

  unfoldable pub queue_message : NetworkIdentity → Waiting → Interlink → Interlink
  queue_message who m s = record s { queued = queue_push same who m s.queued }

  unfoldable pub establish_and_queue :
      Lookup → NetworkIdentity → Waiting → Interlink → Run Interlink
  establish_and_queue lookup who m s =
      establish_connection_to lookup who s >>= λ r. done (queue_message who m r.1)

  -- The result of the transport is only logged.
  unfoldable pub send_over : Connection → Waiting → Interlink → Run Interlink
  send_over c m s = elim c.steam [
    | none ↦ undefined_run
    | some h ↦ done (call (send h (serialize m.0 Writer.new).buf m.1) s)
  ]

  unfoldable pub route : Lookup → NetworkIdentity → Waiting → Interlink → Run Interlink
  route lookup who m s = elim (find_target same who s.connections) [
    | none ↦ establish_and_queue lookup who m s
    | some c ↦
        if is_connected c.state
        then send_over c m s
        else if is_pending c.state
        then done (queue_message who m s)
        else establish_and_queue lookup who m s
  ]

  -- The assertion on `Validate` comes before the test of it.
  unfoldable pub send_message : Lookup → NetworkIdentity → Waiting → Interlink → Run Interlink
  send_message lookup who m s =
      if s.is_init then (if validate m.0 then route lookup who m s else aborted) else aborted
