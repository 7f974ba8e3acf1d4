-- ===== src/Examples/Handoff.antt =====
-- Two shards with bounds side by side. One of them has an entity that has left its bounds.
use atlas_net.Prelude.{
  ◌<◌, arith, Option, false, lex_same, ℕ, ◌≡◌, refl, Bool, true, List, [], ◌∷◌, some, none,
  if◌then◌else◌, All, length,
}
use atlas_net.Bytes.Writer.{Vec3}
use atlas_net.Network.Identity.{NetworkIdentity, e_shard, is_nil}
use atlas_net.Network.Names.{
  same, same_refl, to_string, nuke_string, trim_end, trim_start, visible_only, keeps, is_space,
  enum_to_string,
}
use atlas_net.Ledger.Uuids.{bytewise}
use atlas_net.Heuristic.Floats.{nonnegative}
use atlas_net.Heuristic.Geometry.{contains, off_axis}
use atlas_net.Heuristic.Grid.{GridShape}
use atlas_net.Handoff.Maps.{lookup}
use atlas_net.Handoff.Tracker.{
  Tracker, authoritative, passing, get_owned_entity_snapshots, is_passing, passes_to, mark_passing,
}
use atlas_net.Handoff.Keys.{here, added}
use atlas_net.Handoff.Mailbox.{
  reset, add_pending_outgoing, PendingOutgoingHandoff, TransferMailbox, commit_outgoing_if_due,
}
use atlas_net.Handoff.Planner.{
  Claims, Plan, pos, find_bounds, transfer_time, plan_and_send_all, plan_each, round, destination,
  resolve, select_target,
}
use atlas_net.Handoff.Planning.{run, plan_and_send_all_again}
use atlas_net.Handoff.Leaving.{IsJustified, plan_and_send_all_lem}
use atlas_net.Handoff.Commit.{overdue, hands_over, removes, commit_outgoing_if_due_lem}
use atlas_net.Handoff.Database.{tabled}
use atlas_net.Handoff.Election.{
  OwnershipElection, is_recent, is_shard, pick, pick_each, select_bootstrap_owner, still_valid,
  bootstrap, selected, confirmed, evaluate,
}
use atlas_net.Handoff.Leases.{LeaseCoordinator, taken, try_acquire_or_refresh_lease}
use atlas_net.Handoff.Exclusion.{try_acquire_or_refresh_lease_excludes}
use atlas_net.Handoff.Agreement.{evaluate_agrees}
use atlas_net.Packets.Hash.{codes}
use atlas_net.Examples.Ledger.{uuid_from, origin, far, entity}

abbrev pub text : List ℕ → List ℕ
text id = id

abbrev pub alike : NetworkIdentity → NetworkIdentity → Bool
alike = same text

abbrev pub west : NetworkIdentity
west = record { type = e_shard; id = uuid_from 65 }

abbrev pub east : NetworkIdentity
east = record { type = e_shard; id = uuid_from 66 }

abbrev pub near : Vec3
near = record { x = 9; y = 9; z = 9 }

abbrev pub beyond : Vec3
beyond = record { x = 10; y = 0; z = 0 }

abbrev pub farther : Vec3
farther = record { x = 0x42c80001; y = 9; z = 9 }

abbrev pub west_bounds : GridShape
west_bounds = record { id = 0; aabb = record { min = origin; max = near } }

abbrev pub east_bounds : GridShape
east_bounds = record { id = 1; aabb = record { min = beyond; max = farther } }

abbrev pub claims : Claims
claims = (west, west_bounds) ∷ (east, east_bounds) ∷ []

abbrev pub servers : ℕ → List NetworkIdentity
servers n = west ∷ east ∷ []

abbrev pub tracker : Tracker
tracker =
    (
      uuid_from 3,
      record {
        entity_snapshot = entity 3 true far;
        authority_state = authoritative;
        passing_to = none;
      },
    )
    ∷ []

abbrev planning : Tracker → Plan
planning t = run alike bytewise nonnegative west servers claims (pos 60) 7 t

claimed : find_bounds alike west claims ≡ some west_bounds
unfolding find_bounds
claimed = rw (same_refl text west) refl

-- The entity is handed to the other shard.
starts : length (planning tracker).outgoing ≡ 1
unfolding plan_and_send_all plan_each find_bounds round is_passing contains off_axis destination
    resolve select_target mark_passing passes_to same to_string nuke_string trim_end trim_start
    visible_only keeps is_space enum_to_string is_nil get_owned_entity_snapshots
starts = refl

plan_and_send_all_lem_example :
    All
      (IsJustified alike bytewise nonnegative west claims west_bounds tracker
        (planning tracker).tracker
        (transfer_time (pos 60) 7)
        (get_owned_entity_snapshots tracker))
      (planning tracker).outgoing
plan_and_send_all_lem_example =
    plan_and_send_all_lem alike bytewise nonnegative west claims west_bounds servers
      (same_refl text) (pos 60) 7 tracker claimed

plan_and_send_all_again_example :
    ((planning (planning tracker).tracker).outgoing ≡ [])
    × ((planning (planning tracker).tracker).calls ≡ [])
plan_and_send_all_again_example =
    plan_and_send_all_again alike bytewise nonnegative west servers claims (pos 60) (pos 60) 7 7
      tracker (same_refl text) (λ n. refl)

abbrev pub on_its_way : Tracker
on_its_way =
    (
      uuid_from 3,
      record {
        entity_snapshot = entity 3 true far;
        authority_state = passing;
        passing_to = some east;
      },
    )
    ∷ []

abbrev pub to_east : PendingOutgoingHandoff
to_east = record { entity_id = uuid_from 3; target_identity = east; transfer_time_us = 67 }

abbrev pub mailbox : TransferMailbox
mailbox = add_pending_outgoing bytewise alike to_east reset

commit_outgoing_if_due_lem_example :
    let (_, calls, after, box) = commit_outgoing_if_due bytewise alike west 67 on_its_way mailbox in
    let o = lookup bytewise (uuid_from 3) mailbox.outgoing in
    (lookup bytewise (uuid_from 3) box.outgoing ≡ (if overdue 67 o then none else o))
    × (lookup bytewise (uuid_from 3) after ≡ (
        if hands_over bytewise alike 67 (uuid_from 3) on_its_way o
        then none
        else lookup bytewise (uuid_from 3) on_its_way))
    × (removes bytewise (uuid_from 3) calls
        ≡ hands_over bytewise alike 67 (uuid_from 3) on_its_way o)
    × (box.incoming ≡ mailbox.incoming)
commit_outgoing_if_due_lem_example =
    commit_outgoing_if_due_lem bytewise alike west 67 mailbox on_its_way (uuid_from 3)
      (added to_east reset here)

abbrev pub election : NetworkIdentity → OwnershipElection
election self = record {
  self_identity = self;
  options = record { eval_interval = 2; owner_key = codes "EntityHandoff:TestOwnerShard" };
  is_owner = false;
  ownership_evaluated = false;
  last_owner_eval_time = 0;
}

abbrev pub shards : List NetworkIdentity
shards = east ∷ west ∷ []

abbrev pub unset_keys : List ℕ → Option (List ℕ)
unset_keys k = none

west_wins : (evaluate text tabled shards 5 (election west) unset_keys).0.is_owner ≡ true
unfolding evaluate selected confirmed bootstrap select_bootstrap_owner pick_each pick still_valid
    is_recent is_shard to_string nuke_string trim_end trim_start visible_only keeps is_space
    enum_to_string is_nil
west_wins = refl

evaluate_agrees_example :
    ((evaluate text tabled shards 6
        (election east)
        (evaluate text tabled shards 5 (election west) unset_keys).1).0.is_owner
      ≡ lex_same (to_string text west) (to_string text east))
    × ((evaluate text tabled shards 6
          (election east)
          (evaluate text tabled shards 5 (election west) unset_keys).1).1
        ≡ (evaluate text tabled shards 5 (election west) unset_keys).1)
unfolding is_recent
evaluate_agrees_example =
    evaluate_agrees text tabled shards shards 5 6 (election west) (election east) unset_keys refl
      refl refl (λ name. refl) west_wins

abbrev pub leases : NetworkIdentity → LeaseCoordinator
leases self = record {
  self_identity = self;
  options = record {
    lease_enabled = true;
    inactivity_timeout = 2;
    lease_ttl = 25;
    lease_key_prefix = codes "EntityHandoff:ConnLease:";
  };
  last_activity_by_peer = [];
}

names_differ : lex_same (to_string text west) (to_string text east) ≡ false
unfolding to_string nuke_string trim_end trim_start visible_only keeps is_space enum_to_string
    is_nil
names_differ = refl

west_acquires : (try_acquire_or_refresh_lease text tabled (leases west) east unset_keys).0 ≡ true
unfolding try_acquire_or_refresh_lease taken
west_acquires = refl

lasts : 0 < 25
lasts = omega arith

try_acquire_or_refresh_lease_excludes_example :
    try_acquire_or_refresh_lease text tabled
      (leases east)
      west
      (try_acquire_or_refresh_lease text tabled (leases west) east unset_keys).1
    ≡ (false, (try_acquire_or_refresh_lease text tabled (leases west) east unset_keys).1)
try_acquire_or_refresh_lease_excludes_example =
    try_acquire_or_refresh_lease_excludes text tabled (leases west) (leases east) unset_keys refl
      refl lasts refl names_differ west_acquires
