-- ===== src/Handoff/Runtime.antt =====
-- `SH_ServerAuthorityRuntime` (AtlasNet/lib/Native-exc/EntityHandoff/ServerHandoff), with the interface
-- `DebugEntitySimulator` to a simulator as a parameter. The parts that `Init` makes are there as long as the runtime is initialised. The times, the
-- claimed bounds and the registry's answers are arguments. Logging and the publishing of telemetry are left
-- out, but for whether something is published. The steady clock has run for 50 milliseconds when `Init` is
-- called.
use atlas_net.Prelude.{
  ℕ, ◌-◌, ◌==◌, ◌≡◌, ltb, leb, Bool, true, false, not, ◌&&◌, ◌||◌, List, [], ◌∷◌, ◌++◌, map,
  if◌then◌else◌,
}
use atlas_net.Entity.Full.{AtlasEntity}
use atlas_net.Network.Identity.{NetworkIdentity}
use atlas_net.Ledger.Uuids.{Uuid, Uuids}
use atlas_net.Ledger.State.{id_of}
use atlas_net.Heuristic.Floats.{Floats}
use atlas_net.Handoff.Maps.{listed}
use atlas_net.Handoff.Database.{Database, Text}
use atlas_net.Handoff.Tracker
use atlas_net.Handoff.Tracker.{Tracker, count, set_owned_entities}
use atlas_net.Handoff.Mailbox
use atlas_net.Handoff.Mailbox.{
  TransferMailbox, PendingOutgoingHandoff, Call, adopt_single_entity, simulator_remove_entity,
  mark_incoming_adopted, mark_outgoing_committed, mark_transfer_canceled, publish_from_tracker,
  queue_incoming, adopt_incoming_if_due, add_pending_outgoing, commit_outgoing_if_due,
  has_pending_incoming, has_pending_outgoing, is_filled,
}
use atlas_net.Handoff.Planner.{Claims, ℤ, plan_and_send_all}
use atlas_net.Handoff.Planner
use atlas_net.Handoff.Election
use atlas_net.Handoff.Election.{OwnershipElection, evaluate, invalidate}
use atlas_net.Handoff.Connections
use atlas_net.Handoff.Connections.{ConnectionManager}
use atlas_net.Handoff.Wire
use atlas_net.Handoff.Wire.{
  HandoffPacketManager, WireCall, subscribed, unsubscribed, sent, on_peer_activity,
  on_incoming_handoff, on_generic_entity_packet,
}
use atlas_net.Handoff.Leases.{LeaseOptions}
use atlas_net.Packets.Packet.{Body, generic_entity_body}

-- `SeedEntities` and `Tick` with the options that the runtime gives them, `GetEntitiesSnapshot` and `Count`.
-- An entity that is removed is not there, and the others are.
pub record Simulator (u : Uuids) : Type 1 where
  pub State : Type 0
  pub reset : State → State
  pub seed : State → State
  pub adopt : AtlasEntity → State → State
  pub remove : Uuid → State → State
  pub move : ℕ → State → State
  pub entities : State → List AtlasEntity
  pub population : State → ℕ
  pub listed-remove :
      (id k : Uuid) (s : State)
      → listed u k (map id_of (entities (remove id s)))
        ≡ (not (u.same id k) && listed u k (map id_of (entities s)))

module _ (u : Uuids) (sim : Simulator u) where
  pub record Runtime : Type 0 where
    pub self_identity : NetworkIdentity
    pub initialized : Bool
    pub has_seeded : Bool
    pub last_tick_time : ℕ
    pub last_snapshot_time : ℕ
    pub tracker : Tracker
    pub simulator : sim.State
    pub election : OwnershipElection
    pub mailbox : TransferMailbox

  -- The calls that the mailbox makes of the simulator.
  unfoldable pub run_call : Call → sim.State → sim.State
  run_call (adopt_single_entity e) s = sim.adopt e s
  run_call (simulator_remove_entity id) s = sim.remove id s
  run_call (mark_incoming_adopted id a b n) s = s
  run_call (mark_outgoing_committed id a b) s = s
  run_call (mark_transfer_canceled id) s = s
  run_call (publish_from_tracker t) s = s

  unfoldable pub run_calls : List Call → sim.State → sim.State
  run_calls [] s = s
  run_calls (c ∷ cs) s = run_calls cs (run_call c s)

-- The clocks in nanoseconds: the steady one, and 50 milliseconds of it.
abbrev pub k_state_snapshot_interval : ℕ
k_state_snapshot_interval = 50000000

module _ (u : Uuids) (sim : Simulator u) (same : NetworkIdentity → NetworkIdentity → Bool) where
  -- The runtime with the connection manager and the packet manager, which are singletons.
  pub record Up : Type 0 where
    pub runtime : Runtime u sim
    pub connections : ConnectionManager
    pub packets : HandoffPacketManager
    pub calls : List WireCall

  -- `debugSimulator` and `ownershipElection` are new objects. The callbacks that are set at the end are
  -- those of `run_wire_call`.
  unfoldable pub init :
      LeaseOptions
      → NetworkIdentity
      → ℕ
      → sim.State
      → OwnershipElection
      → ConnectionManager
      → HandoffPacketManager
      → Up
  init options self now fresh election cm pm =
      let (calls, pm') = Wire.init self pm in
      record {
        runtime = record {
          self_identity = self;
          initialized = true;
          has_seeded = false;
          last_tick_time = now;
          last_snapshot_time = now - k_state_snapshot_interval;
          tracker = Tracker.reset;
          simulator = sim.reset fresh;
          election = Election.reset now election;
          mailbox = Mailbox.reset;
        };
        connections = Connections.init options self cm;
        packets = Wire.set_callbacks true true pm';
        calls = calls;
      }

  unfoldable pub add_all : List PendingOutgoingHandoff → TransferMailbox → TransferMailbox
  add_all [] m = m
  add_all (h ∷ hs) m = add_all hs (add_pending_outgoing u same h m)

  unfoldable pub on_incoming_handoff_entity_at_time_us :
      AtlasEntity → NetworkIdentity → ℕ → Runtime u sim → Runtime u sim
  on_incoming_handoff_entity_at_time_us e sender time r =
      if not r.initialized then r else record r {
        mailbox = queue_incoming u same e sender time r.mailbox;
        election = invalidate r.election;
      }

  unfoldable pub on_incoming_handoff_entity :
      AtlasEntity → NetworkIdentity → Runtime u sim → Runtime u sim
  on_incoming_handoff_entity e sender r = on_incoming_handoff_entity_at_time_us e sender 0 r

  module _ (text : Text → Text) (db : Database) where
    pub record Shard : Type 0 where
      pub runtime : Runtime u sim
      pub connections : ConnectionManager
      pub packets : HandoffPacketManager
      pub database : db.State

    -- What the callbacks that `Init` sets do when the packet manager calls them.
    unfoldable pub run_wire_call : ℕ → WireCall → Shard → Shard
    run_wire_call now (on_incoming_handoff e sender time) s = record s {
      runtime = on_incoming_handoff_entity_at_time_us e sender time s.runtime;
    }
    run_wire_call now (on_peer_activity peer) s =
        let (cm, d) =
          Connections.mark_connection_activity same text db now peer s.connections s.database in
        record s { connections = cm; database = d }
    run_wire_call now (sent target p) s = s
    run_wire_call now subscribed s = s
    run_wire_call now unsubscribed s = s

    unfoldable pub run_wire_calls : ℕ → List WireCall → Shard → Shard
    run_wire_calls now [] s = s
    run_wire_calls now (c ∷ cs) s = run_wire_calls now cs (run_wire_call now c s)

    -- The callback that the packet manager subscribes for `GenericEntityPacket`.
    unfoldable pub handle_packet : ℕ → Body → Shard → Shard
    handle_packet now (generic_entity_body p) s =
        run_wire_calls now (on_generic_entity_packet same p s.packets) s
    handle_packet now _ s = s

  module _ (text : Text → Text) (db : Database) (f : Floats) (delay : ℤ) where
    -- What a tick leaves, with the connections that it closes, the calls of the mailbox and of the
    -- planner, and whether the telemetry is published at its end.
    pub record Ticked : Type 0 where
      pub runtime : Runtime u sim
      pub connections : ConnectionManager
      pub database : db.State
      pub closed : List NetworkIdentity
      pub calls : List Call
      pub planned : List Planner.Call
      pub publishes : Bool

    -- The parts at a tick, after what `Init` made, in the order of the calls.
    unfoldable pub tick_parts :
        Claims
        → (ℕ → List NetworkIdentity)
        → List NetworkIdentity
        → ℕ
        → ℕ
        → ℕ
        → Runtime u sim
        → ConnectionManager
        → db.State
        → Ticked
    tick_parts claims servers registry reap_now now unix_us r cm d =
        let (closed, cm', d1) = Connections.tick same text db reap_now cm d in
        let (election, d2) = evaluate text db registry now r.election d1 in
        let (adopted, adoptions, box1) =
          adopt_incoming_if_due u same r.self_identity unix_us r.mailbox in
        let sim1 = run_calls u sim adoptions r.simulator in
        let seeds = election.is_owner && not r.has_seeded in
        let sim2 = if seeds then sim.seed sim1 else sim1 in
        let sim3 =
          if ltb 0 (sim.population sim2) then sim.move (now - r.last_tick_time) sim2 else sim2 in
        let t1 = set_owned_entities u (sim.entities sim3) r.tracker in
        let plan = plan_and_send_all same u f r.self_identity claims servers delay unix_us t1 in
        let box2 = add_all plan.outgoing box1 in
        let (committed, commits, t2, box3) =
          commit_outgoing_if_due u same r.self_identity unix_us plan.tracker box2 in
        let moved = ltb 0 adopted || ltb 0 committed || is_filled plan.outgoing in
        let idle =
          not election.is_owner
          && count t2 == 0
          && not (has_pending_incoming box3)
          && not (has_pending_outgoing box3) in
        let publishes = leb k_state_snapshot_interval (now - r.last_snapshot_time) in
        record {
          runtime = record r {
            has_seeded = if idle then false else (r.has_seeded || seeds);
            last_tick_time = now;
            last_snapshot_time = if publishes then now else r.last_snapshot_time;
            tracker = t2;
            simulator = run_calls u sim commits sim3;
            election = if moved then invalidate election else election;
            mailbox = box3;
          };
          connections = cm';
          database = d2;
          closed = closed;
          calls = adoptions ++ commits;
          planned = plan.calls;
          publishes = publishes;
        }

    unfoldable pub tick :
        Claims
        → (ℕ → List NetworkIdentity)
        → List NetworkIdentity
        → ℕ
        → ℕ
        → ℕ
        → Runtime u sim
        → ConnectionManager
        → db.State
        → Ticked
    tick claims servers registry reap_now now unix_us r cm d =
        if not r.initialized
        then record {
          runtime = r;
          connections = cm;
          database = d;
          closed = [];
          calls = [];
          planned = [];
          publishes = false;
        }
        else tick_parts claims servers registry reap_now now unix_us r cm d

    -- What a shutdown leaves, with the connections that it closes and the calls of the packet manager.
    pub record Down : Type 0 where
      pub runtime : Runtime u sim
      pub connections : ConnectionManager
      pub packets : HandoffPacketManager
      pub database : db.State
      pub closed : List NetworkIdentity
      pub calls : List WireCall

    unfoldable pub shutdown :
        Runtime u sim → ConnectionManager → HandoffPacketManager → db.State → Down
    shutdown r cm pm d =
        if not r.initialized
        then record {
          runtime = r;
          connections = cm;
          packets = pm;
          database = d;
          closed = [];
          calls = [];
        }
        else (let (calls, pm') = Wire.shutdown (Wire.set_callbacks false false pm) in
            let (closed, cm', d') = Connections.shutdown same text db cm d in
            record {
              runtime = record r { initialized = false };
              connections = cm';
              packets = pm';
              database = d';
              closed = closed;
              calls = calls;
            })
