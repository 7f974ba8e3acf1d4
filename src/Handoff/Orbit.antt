-- ===== src/Handoff/Orbit.antt =====
-- `DebugEntityOrbitSimulator` (AtlasNet/lib/Native-exc/EntityHandoff/DebugEntities), the simulator that
-- `SH_ServerAuthorityRuntime::Init` makes by default. Floats are their bit patterns; their operations, the
-- random phase and the operations on `AtlasEntityID` are parameters. The logger is left out.
use atlas_net.Prelude.{
  ℕ, zero, suc, ◌+◌, ◌*◌, ◌-◌, ◌^◌, ◌%◌, Bool, false, not, ◌||◌, List, [], map, length, leb,
  if◌then◌else◌,
}
use atlas_net.Network.Identity.{nil_uuid}
use atlas_net.Bytes.Writer.{Vec3}
use atlas_net.Entity.Aabb.{Aabb}
use atlas_net.Entity.Transform.{Transform}
use atlas_net.Entity.Minimal.{AtlasEntityMinimal}
use atlas_net.Entity.Full.{AtlasEntity}
use atlas_net.Ledger.Uuids.{Uuid, Uuids}
use atlas_net.Ledger.State.{id_of}
use atlas_net.Handoff.Maps.{Map, assign, erase}

-- `draw` is a uniform phase between 0 and 2 π, with the generator behind it.
pub record Motion : Type 1 where
  pub Rng : Type 0
  pub draw : Rng → ℕ × Rng
  pub add : ℕ → ℕ → ℕ
  pub sub : ℕ → ℕ → ℕ
  pub mul : ℕ → ℕ → ℕ
  pub max : ℕ → ℕ → ℕ
  pub clamp : ℕ → ℕ → ℕ → ℕ
  pub abs : ℕ → ℕ
  pub more : ℕ → ℕ → Bool
  pub of_uint : ℕ → ℕ
  pub cos : ℕ → ℕ
  pub sin : ℕ → ℕ
  pub atan2 : ℕ → ℕ → ℕ
  pub to_id : ℕ → Uuid
  pub id_xor : Uuid → Uuid → Uuid
  pub id_shift : Uuid → ℕ → Uuid

pub record SeedOptions : Type 0 where
  pub desired_count : ℕ
  pub half_extent : ℕ
  pub phase_step_rad : ℕ
  pub initial_radius : ℕ
  pub randomize_initial_phase : Bool

pub record TickOptions : Type 0 where
  pub radius : ℕ
  pub angular_speed_rad_per_sec : ℕ

pub record OrbitEntity : Type 0 where
  pub entity : AtlasEntity
  pub phase_offset_rad : ℕ

-- The patterns of 0.5, 0.25 and 0.0001.
abbrev pub k_default_half_extent : ℕ
k_default_half_extent = 1056964608

abbrev pub k_longest_step : ℕ
k_longest_step = 1048576000

abbrev pub k_near_zero : ℕ
k_near_zero = 953267991

module _ (u : Uuids) (f : Motion) where
  pub record OrbitSimulator : Type 0 where
    pub orbit_angle_rad : ℕ
    pub entities_by_id : Map OrbitEntity
    pub rng : f.Rng

  abbrev pub make_entity_id : ℕ → Uuid
  make_entity_id index =
      f.id_xor (f.to_id (2802867949 * 2 ^ 32)) (f.id_shift (f.to_id ((index + 1) % 2 ^ 32)) 1)

  abbrev pub set_center_extents : Vec3 → ℕ → Aabb
  set_center_extents c h = record {
    min = record { x = f.sub c.x h; y = f.sub c.y h; z = f.sub c.z h };
    max = record { x = f.add c.x h; y = f.add c.y h; z = f.add c.z h };
  }

  abbrev pub reset : OrbitSimulator → OrbitSimulator
  reset s = record s { entities_by_id = []; orbit_angle_rad = 0 }

  abbrev pub phase_offset : SeedOptions → ℕ → f.Rng → ℕ × f.Rng
  phase_offset o i r =
      if not o.randomize_initial_phase then (f.mul o.phase_step_rad (f.of_uint i), r) else f.draw r

  abbrev pub seeded : SeedOptions → ℕ → ℕ → ℕ → OrbitEntity
  seeded o i orbit phase =
      let angle = f.add orbit phase in
      let radius = f.max o.initial_radius 0 in
      let position : Vec3 = record {
        x = f.mul (f.cos angle) radius;
        y = f.mul (f.sin angle) radius;
        z = 0;
      } in
      let placed : Transform = record {
        world = 0;
        position = position;
        bounding_box = set_center_extents position o.half_extent;
      } in
      let base : AtlasEntityMinimal = record {
        entity_id = make_entity_id i;
        is_client = false;
        client_id = nil_uuid;
        packet_seq = 0;
        transfer_generation = 0;
        transform = placed;
      } in
      record { entity = record { base = base; metadata = [] }; phase_offset_rad = phase }

  abbrev pub seed_one : SeedOptions → ℕ → OrbitSimulator → OrbitSimulator
  seed_one o i s =
      let (phase, rng) = phase_offset o i s.rng in
      let e = seeded o i s.orbit_angle_rad phase in
      record s { entities_by_id = assign u (id_of e.entity) e s.entities_by_id; rng = rng }

  -- `left` rounds from `i` on.
  abbrev pub seed_each : SeedOptions → ℕ → ℕ → OrbitSimulator → OrbitSimulator
  seed_each o zero i s = s
  seed_each o (suc left) i s = seed_each o left (i + 1) (seed_one o i s)

  abbrev pub seed_entities : SeedOptions → OrbitSimulator → OrbitSimulator
  seed_entities o s =
      let n = length s.entities_by_id in
      if leb o.desired_count n then s else seed_each o (o.desired_count - n) n s

  abbrev pub adopted_phase : AtlasEntity → ℕ → ℕ
  adopted_phase e orbit =
      let p = e.base.transform.position in
      if f.more (f.abs p.x) k_near_zero || f.more (f.abs p.y) k_near_zero
      then f.sub (f.atan2 p.y p.x) orbit
      else 0

  abbrev pub adopt_single_entity : AtlasEntity → OrbitSimulator → OrbitSimulator
  adopt_single_entity e s =
      let o : OrbitEntity = record {
        entity = e;
        phase_offset_rad = adopted_phase e s.orbit_angle_rad;
      } in
      record s { entities_by_id = assign u (id_of e) o s.entities_by_id }

  abbrev pub remove_entity : Uuid → OrbitSimulator → OrbitSimulator
  remove_entity id s = record s { entities_by_id = erase u id s.entities_by_id }

  abbrev pub moved : TickOptions → ℕ → OrbitEntity → OrbitEntity
  moved o orbit x =
      let angle = f.add orbit x.phase_offset_rad in
      let t = x.entity.base.transform in
      let position : Vec3 = record {
        x = f.mul (f.cos angle) o.radius;
        y = f.mul (f.sin angle) o.radius;
        z = t.position.z;
      } in
      let placed = record t {
        position = position;
        bounding_box = set_center_extents position k_default_half_extent;
      } in
      record x {
        entity = record (x.entity) { base = record (x.entity.base) { transform = placed } };
      }

  abbrev pub tick : TickOptions → ℕ → OrbitSimulator → OrbitSimulator
  tick o delta s =
      let step = f.clamp delta 0 k_longest_step in
      let orbit = f.add s.orbit_angle_rad (f.mul step o.angular_speed_rad_per_sec) in
      record s {
        orbit_angle_rad = orbit;
        entities_by_id = map (λ x. (x.0, moved o orbit x.1)) s.entities_by_id;
      }

  abbrev pub get_entities_snapshot : OrbitSimulator → List AtlasEntity
  get_entities_snapshot s = map (λ x. x.1.entity) s.entities_by_id
