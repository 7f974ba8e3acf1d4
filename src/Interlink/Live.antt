-- ===== src/Interlink/Live.antt =====
-- The states in which a connection of the table can be.
pub mod Tables
pub mod Sending
pub mod Reports
pub mod Reachable
use atlas_net.Prelude.{
  ℕ, suc, ◌≡◌, ◌≢◌, refl, sym, ap, ◌∙◌, ◌==◌, Bool, true, false, not, List, [], ◌∷◌, ◌++◌, length,
  All, All-append, Option, some, none, if◌then◌else◌, Bool-cases, Option-cases, some-cancel, inl,
  inr, ◌⊎◌,
}
use mathlib.Core.Path.{subst}
use atlas_net.Network.Identity.{NetworkIdentity, is_internal, is_nil, e_game_client}
use atlas_net.Packets.Packet.{validate}
use atlas_net.Interlink.Run.{
  Run, done, aborted, undefined_run, After, After-bind, After-done, After-any, After-if,
  After-option, ◌>>=◌,
}
use atlas_net.Interlink.Connection.{
  Connection, ConnectionState, pre_connecting, connecting, connected, set_new_state, make, Address,
  ConnectionKind, internal, external, is_pending, is_connected, is_pre_connecting, is_connecting,
}
use atlas_net.Interlink.Table.{
  has_handle, find_handle, modify_handle, erase_handle, find_target, erase_target,
}
use atlas_net.Interlink.State.{Interlink, Waiting, Call, call, queue_of, queue_erase}
use atlas_net.Interlink.Send.{
  Lookup, ask, insert, under_way, establish_connection_at_ip, establish_new,
  establish_connection_to, close_connection_to, queue_message, establish_and_queue, send_over,
  route, send_message,
}
use atlas_net.Interlink.Callbacks.{
  connect_one, connect_all, generate_new_connections, modify, remote_identity, on_incoming,
  callback_on_connecting, callback_on_closed_by_peer, callback_on_problem_detected_locally,
  announce_client, assign_identity, on_client_connected, flush_loop, flush, flush_handle,
  callback_on_connected, Report, reports_connecting, reports_connected, reports_closed_by_peer,
  reports_problem, reports_other, on_connection_status_changed,
}
use atlas_net.Interlink.Steps.{
  Input, sends, establishes, establishes_at, closes, generates, reports, step, new, Reach, here,
  next,
}

-- A connection that is under way, and has a handle when it is connected.
abbrev pub Live : Connection → Type 0
Live c = (is_pending c.state ≡ true) ⊎ ((is_connected c.state ≡ true) × (c.steam ≢ none))

abbrev pub IsLive : Interlink → Type 0
IsLive s = All Live s.connections
