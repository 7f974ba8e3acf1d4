-- ===== src/Handoff/Mailbox.antt =====
-- `SH_TransferMailbox` (AtlasNet/lib/Native-exc/EntityHandoff/ServerHandoff) with the types of
-- SH_HandoffTypes.hpp. The calls of the simulator, of the telemetry and of the transfer manifest are
-- recorded in their order. Logging is left out.
use atlas_net.Prelude.{ℕ, ltb, Bool, true, false, not, List, [], ◌∷◌, ◌++◌, if◌then◌else◌, length}
use atlas_net.Entity.Full.{AtlasEntity}
use atlas_net.Network.Identity.{NetworkIdentity}
use atlas_net.Ledger.Uuids.{Uuid, Uuids}
use atlas_net.Ledger.State.{id_of}
use atlas_net.Handoff.Maps.{Map, assign, erase_all}
use atlas_net.Handoff.Tracker.{Tracker, is_passing_to, remove_entity}

pub record PendingIncomingHandoff : Type 0 where
  pub entity : AtlasEntity
  pub sender : NetworkIdentity
  pub transfer_time_us : ℕ

pub record PendingOutgoingHandoff : Type 0 where
  pub entity_id : Uuid
  pub target_identity : NetworkIdentity
  pub transfer_time_us : ℕ

pub record TransferMailbox : Type 0 where
  pub incoming : Map PendingIncomingHandoff
  pub outgoing : Map PendingOutgoingHandoff

-- A call of another component with its arguments.
pub data Call : Type 0 where
  adopt_single_entity : AtlasEntity → Call
  mark_incoming_adopted : Uuid → NetworkIdentity → NetworkIdentity → ℕ → Call
  simulator_remove_entity : Uuid → Call
  mark_outgoing_committed : Uuid → NetworkIdentity → NetworkIdentity → Call
  mark_transfer_canceled : Uuid → Call
  publish_from_tracker : Tracker → Call

abbrev pub reset : TransferMailbox
reset = record { incoming = []; outgoing = [] }

unfoldable pub clear_pending_outgoing : TransferMailbox → TransferMailbox
clear_pending_outgoing m = record m { outgoing = [] }

abbrev pub is_filled {ℓ} : {A : Type ℓ} → List A → Bool
is_filled [] = false
is_filled (x ∷ xs) = true

unfoldable pub has_pending_incoming : TransferMailbox → Bool
has_pending_incoming m = is_filled m.incoming

unfoldable pub has_pending_outgoing : TransferMailbox → Bool
has_pending_outgoing m = is_filled m.outgoing

-- What the loop of `AdoptIncomingIfDue` collects, and the calls it makes.
pub record Adopted : Type 0 where
  pub ids : List Uuid
  pub calls : List Call

unfoldable pub adopt_each : NetworkIdentity → ℕ → Map PendingIncomingHandoff → Adopted
adopt_each self now [] = record { ids = []; calls = [] }
adopt_each self now (x ∷ xs) =
    let rest = adopt_each self now xs in
    if ltb now x.1.transfer_time_us then rest else record {
      ids = x.0 ∷ rest.ids;
      calls =
          adopt_single_entity x.1.entity
          ∷ mark_incoming_adopted x.0 x.1.sender self x.1.transfer_time_us
          ∷ rest.calls;
    }

-- What the loop of `CommitOutgoingIfDue` collects, and the calls it makes.
pub record Committed : Type 0 where
  pub committed : List Uuid
  pub canceled : List Uuid
  pub tracker : Tracker
  pub calls : List Call

-- The telemetry is published when something was committed.
unfoldable pub published : Committed → List Call
published c =
    if is_filled c.committed then c.calls ++ publish_from_tracker c.tracker ∷ [] else c.calls

module _ (u : Uuids) (same : NetworkIdentity → NetworkIdentity → Bool) where
  unfoldable pub queue_incoming :
      AtlasEntity → NetworkIdentity → ℕ → TransferMailbox → TransferMailbox
  queue_incoming e sender time m = record m {
    incoming =
        assign u (id_of e) (record { entity = e; sender = sender; transfer_time_us = time })
          m.incoming;
  }

  unfoldable pub adopt_incoming_if_due :
      NetworkIdentity → ℕ → TransferMailbox → ℕ × List Call × TransferMailbox
  adopt_incoming_if_due self now m =
      if not (has_pending_incoming m)
      then (0, [], m)
      else (let a = adopt_each self now m.incoming in
          (length a.ids, a.calls, record m { incoming = erase_all u a.ids m.incoming }))

  unfoldable pub add_pending_outgoing : PendingOutgoingHandoff → TransferMailbox → TransferMailbox
  add_pending_outgoing h m = record m { outgoing = assign u h.entity_id h m.outgoing }

  unfoldable pub commit_each :
      NetworkIdentity → ℕ → Map PendingOutgoingHandoff → Tracker → Committed
  commit_each self now [] t = record { committed = []; canceled = []; tracker = t; calls = [] }
  commit_each self now (x ∷ xs) t =
      let going = is_passing_to u same x.0 x.1.target_identity t in
      let rest = commit_each self now xs (
        if ltb now x.1.transfer_time_us
        then t
        else if not going
        then t
        else remove_entity u x.0 t) in
      if ltb now x.1.transfer_time_us
      then rest
      else if not going
      then record rest {
        canceled = x.0 ∷ rest.canceled;
        calls = mark_transfer_canceled x.0 ∷ rest.calls;
      }
      else record rest {
        committed = x.0 ∷ rest.committed;
        calls =
            simulator_remove_entity x.0
            ∷ mark_outgoing_committed x.0 self x.1.target_identity
            ∷ rest.calls;
      }

  unfoldable pub commit_outgoing_if_due :
      NetworkIdentity → ℕ → Tracker → TransferMailbox → ℕ × List Call × Tracker × TransferMailbox
  commit_outgoing_if_due self now t m =
      if not (has_pending_outgoing m)
      then (0, [], t, m)
      else (let c = commit_each self now m.outgoing t in
          (
            length c.committed,
            published c,
            c.tracker,
            record m { outgoing = erase_all u c.canceled (erase_all u c.committed m.outgoing) },
          ))
