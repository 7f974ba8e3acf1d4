-- ===== src/Examples/Runtime.antt =====
-- An orbit simulator that holds one entity, a shard whose entity has left its bounds, and the shard that gets it.
use atlas_net.Prelude.{
  inl, inr, ◌<◌, ◌≤◌, ◌^◌, ◌||◌, none, List, ℕ, ◌+◌, ◌*◌, ◌-◌, ltb, ◌≡◌, refl, true, false, [], ◌∷◌,
  map, some, if◌then◌else◌, length, arith,
}
use atlas_net.Bytes.Writer
use atlas_net.Entity.Aabb
use atlas_net.Entity.Transform
use atlas_net.Entity.Minimal
use atlas_net.Entity.Full
use atlas_net.Network.Identity
use atlas_net.Entity.Full.{AtlasEntity}
use atlas_net.Network.Identity.{NetworkIdentity}
use atlas_net.Network.Names.{
  same, to_string, nuke_string, trim_end, trim_start, visible_only, keeps, is_space, enum_to_string,
}
use atlas_net.Network.Identity.{is_nil}
use atlas_net.Ledger.Uuids.{Uuid, bytewise}
use atlas_net.Ledger.State.{id_of}
use atlas_net.Heuristic.Floats.{nonnegative}
use atlas_net.Handoff.Maps.{lookup, listed}
use atlas_net.Handoff.Database.{tabled}
use atlas_net.Handoff.Mailbox.{TransferMailbox, reset}
use atlas_net.Handoff.Keys.{Reach, here, added}
use atlas_net.Handoff.Planner.{pos}
use atlas_net.Handoff.Presence.{has}
use atlas_net.Packets.GenericEntity
use atlas_net.Packets.GenericEntity.{GenericEntityPacket}
use atlas_net.Packets.Packet
use atlas_net.Packets.Packet.{type_id}
use atlas_net.Packets.Registered.{register_all}
use atlas_net.Dispatch.Manager.{PacketManager, entries, keep_alive}
use atlas_net.Dispatch.Table.{IsManager}
use atlas_net.Interlink.Run.{done}
use atlas_net.Interlink.Connection.{Connection, connected, internal, is_connected}
use atlas_net.Interlink.Table.{has_handle, find_handle, find_target}
use atlas_net.Interlink.State.{Interlink, e_reliable_batched, send, call}
use atlas_net.Interlink.Send.{Lookup}
use atlas_net.Interlink.Receive.{receive_messages}
use atlas_net.Interlink.Delivery.{onlooker}
use atlas_net.Examples.Packets.{all_kinds}
use atlas_net.Handoff.Wire.{HandoffPacketManager, send_entity_handoff}
use atlas_net.Handoff.Connections.{ConnectionManager}
use atlas_net.Handoff.Runtime.{Simulator, Runtime, Shard, tick}
use atlas_net.Handoff.Orbit.{Motion, SeedOptions, seed_entities, get_entities_snapshot}
use atlas_net.Handoff.Orbiting.{orbit_simulator}
use atlas_net.Handoff.Seeding.{seed_entities_lem}
use atlas_net.Handoff.Ownership.{tick_lem}
use atlas_net.Handoff.Receipt.{packet_of, whole, run_sends, act, handoff_received}
use atlas_net.Examples.Ledger.{uuid_from, far, entity}
use atlas_net.Examples.Handoff.{
  text, alike, west, east, claims, servers, on_its_way, mailbox, to_east, election, shards,
  unset_keys, leases,
}

-- Every angle counts as it is, and the numbers of entities are single bytes.
abbrev turning : Motion
turning = record {
  Rng = ℕ;
  draw = λ r. (r, r + 1);
  add = λ a b. a + b;
  sub = λ a b. a - b;
  mul = λ a b. a * b;
  max = λ a b. if ltb a b then b else a;
  clamp = λ a b c. if ltb a b then b else if ltb c a then c else a;
  abs = λ a. a;
  more = λ a b. ltb b a;
  of_uint = λ n. n;
  cos = λ a. a;
  sin = λ a. a;
  atan2 = λ y x. y;
  to_id = λ n. n ∷ [];
  id_xor = λ a b. b;
  id_shift = λ a n. a;
}

abbrev two_wanted : SeedOptions
two_wanted = record {
  desired_count = 2;
  half_extent = 1;
  phase_step_rad = 1;
  initial_radius = 1;
  randomize_initial_phase = true;
}

abbrev orbits : Simulator bytewise
orbits =
    orbit_simulator bytewise turning two_wanted
      (record { radius = 1; angular_speed_rad_per_sec = 1 }) (λ n. n)

-- What has adopted the one entity.
abbrev holding : orbits.State
holding =
    orbits.adopt (entity 3 true far)
      (record { state = record { orbit_angle_rad = 0; entities_by_id = []; rng = 5 }; keyed = tt })

abbrev shard : NetworkIdentity → TransferMailbox → Runtime bytewise orbits
shard self m = record {
  self_identity = self;
  initialized = true;
  has_seeded = true;
  last_tick_time = 0;
  last_snapshot_time = 0;
  tracker = on_its_way;
  simulator = holding;
  election = election self;
  mailbox = m;
}

abbrev connections : NetworkIdentity → ConnectionManager
connections self = record {
  self_identity = self;
  initialized = true;
  active_connections = east ∷ [];
  lease_mode_enabled = true;
  lease_coordinator = some (leases self);
}

tick_lem_example :
    let after =
      (tick bytewise orbits alike text tabled nonnegative
        (pos 60)
        claims
        servers
        shards
        1
        1
        67
        (shard west mailbox)
        (connections west)
        unset_keys).runtime in
    ((k : Uuid)
      → has bytewise k after.tracker
        ≡ listed bytewise k (map id_of (orbits.entities after.simulator)))
    × Reach bytewise alike after.mailbox
tick_lem_example =
    tick_lem bytewise orbits alike text tabled nonnegative (pos 60) claims servers shards 1 1 67
      (shard west mailbox) (connections west) unset_keys refl (added to_east reset here)

abbrev manager : NetworkIdentity → HandoffPacketManager
manager self = record {
  self_identity = self;
  initialized = true;
  incoming_set = true;
  activity_set = true;
}

abbrev handed_over : GenericEntityPacket
handed_over = packet_of (manager west) (entity 3 true far) 67 5

apart_names : alike west east ≡ false
unfolding same to_string nuke_string trim_end trim_start visible_only keeps is_space enum_to_string
    is_nil
apart_names = refl

abbrev receiver : Shard bytewise orbits alike text tabled
receiver = record {
  runtime = shard east reset;
  connections = connections east;
  packets = manager east;
  database = unset_keys;
}

abbrev over_handle : NetworkIdentity → ℕ → Connection
over_handle target h = record {
  address = [];
  old_state = none;
  state = some connected;
  target = target;
  steam = some h;
  kind = internal;
}

abbrev west_link : Interlink
west_link = record {
  self_id = west;
  is_init = true;
  connections = over_handle east 7 ∷ [];
  queued = [];
  calls = [];
}

abbrev one_entry : PacketManager
one_entry = record {
  callbacks = (3052270901, record { id = 1; alive = true } ∷ []) ∷ [];
  next_id = 2;
}

one_entry-IsManager : IsManager one_entry
unfolding entries
one_entry-IsManager t = ground arith

abbrev nobody : Lookup
nobody who n = none

found_east : find_target alike east west_link.connections ≡ some (over_handle east 7)
unfolding find_target same to_string nuke_string trim_end trim_start visible_only keeps is_space
    enum_to_string is_nil
found_east = refl

few_bytes : length (Packet.serialize (whole handed_over) Writer.new).buf < 2 ^ 64
unfolding Packet.serialize Packet.serialize_data GenericEntity.serialize_data Identity.serialize
    Full.serialize Minimal.serialize Transform.serialize Aabb.serialize Writer.new Writer.u64
    Writer.push_be Writer.u8 Writer.blob Writer.write Writer.var_u32 Writer.var_u32_loop
    Writer.write_vector3 Writer.f32 Writer.u32 Writer.vec3 Writer.u16 Writer.uuid
    Writer.write_scalar32
few_bytes = omega arith

handoff_received_example :
    (bytes : List ℕ) × (after : Shard bytewise orbits alike text tabled) × (run_sends alike nobody
        (send_entity_handoff east (entity 3 true far) 67 5 (manager west))
        west_link
      ≡ done (call (send 7 bytes e_reliable_batched) west_link))
    × (receive_messages
          (register_all all_kinds [])
          (onlooker (act alike bytewise orbits text tabled 1))
          (over_handle west 9 ∷ [])
          ((9, bytes) ∷ [])
          (one_entry, receiver)
        ≡ done (one_entry, after))
    × ((k : Uuid)
        → lookup bytewise k after.runtime.mailbox.incoming ≡ (
            if bytewise.same (uuid_from 3) k
            then some (record { entity = entity 3 true far; sender = west; transfer_time_us = 67 })
            else lookup bytewise k []))
unfolding find_handle has_handle is_connected type_id Packet.validate_data
    GenericEntity.validate_data entries keep_alive
handoff_received_example =
    handoff_received alike bytewise orbits text tabled (manager west) (entity 3 true far) 67 5
      receiver refl refl refl apart_names refl refl all_kinds (inr (inr (inl refl))) (omega arith)
      refl few_bytes nobody east west_link (over_handle east 7) 7 (over_handle west 9 ∷ []) 9
      (over_handle west 9) one_entry 1 1 refl found_east refl refl refl one_entry-IsManager refl

seed_entities_lem_example :
    ((k : Uuid)
      → listed bytewise k (
          map id_of (
            get_entities_snapshot bytewise turning
              (seed_entities bytewise turning two_wanted holding.state)))
        ≡ (listed bytewise k (uuid_from 3 ∷ []) || listed bytewise k ((2 ∷ []) ∷ [])))
    × (1 ≤ length (seed_entities bytewise turning two_wanted holding.state).entities_by_id)
    × (length (seed_entities bytewise turning two_wanted holding.state).entities_by_id ≤ 2)
seed_entities_lem_example =
    seed_entities_lem bytewise turning two_wanted holding.state holding.keyed
