-- ===== src/Interlink/Steps.antt =====
-- What happens to `Interlink`, one call after the other: those of the process and those of the
-- transport, in any order.
use atlas_net.Prelude.{ℕ, ◌≡◌, Bool, true, [], Option}
use atlas_net.Network.Identity.{NetworkIdentity}
use atlas_net.Interlink.Run.{Run, done, ◌>>=◌}
use atlas_net.Interlink.Connection.{Address}
use atlas_net.Interlink.State.{Interlink, Waiting}
use atlas_net.Interlink.Send.{
  Lookup, establish_connection_at_ip, establish_connection_to, close_connection_to, send_message,
}
use atlas_net.Interlink.Callbacks.{generate_new_connections, Report, on_connection_status_changed}

-- A call, with what the registry and the transport answer.
pub data Input : Type 0 where
  sends : Lookup → NetworkIdentity → Waiting → Input
  establishes : Lookup → NetworkIdentity → Input
  establishes_at : NetworkIdentity → Address → Input
  closes : NetworkIdentity → Input
  generates : (ℕ → Option ℕ) → Input
  reports : Lookup → Report → Input

-- Behind `Init` of a process that connects to nobody, as the watch dog does.
unfoldable pub new : NetworkIdentity → Interlink
new self_id = record {
  self_id = self_id;
  is_init = true;
  connections = [];
  queued = [];
  calls = [];
}

module _ (same : NetworkIdentity → NetworkIdentity → Bool) where
  unfoldable pub step : Input → Interlink → Run Interlink
  step (sends lookup who m) s = send_message same lookup who m s
  step (establishes lookup who) s = establish_connection_to same lookup who s >>= λ r. done r.1
  step (establishes_at who address) s = done (establish_connection_at_ip same who address s).1
  step (closes who) s = close_connection_to same who s
  step (generates answer) s = done (generate_new_connections answer s)
  step (reports lookup r) s = on_connection_status_changed same lookup r s

  pub data Reach (s : Interlink) : Interlink → Type 0 where
    here : Reach s s
    next : {t : Interlink} (i : Input) (u : Interlink) → Reach s t → step i t ≡ done u → Reach s u
