-- ===== src/Handoff/Tracker.antt =====
-- `SH_EntityAuthorityTracker` (AtlasNet/lib/Native-exc/EntityHandoff/ServerHandoff). Logging is left
-- out.
use atlas_net.Prelude.{
  ℕ, Bool, true, false, ◌&&◌, List, [], ◌∷◌, map, Option, some, none, if◌then◌else◌, length,
}
use atlas_net.Bytes.Writer.{Vec3}
use atlas_net.Entity.Full.{AtlasEntity}
use atlas_net.Network.Identity.{NetworkIdentity}
use atlas_net.Ledger.Uuids.{Uuid, Uuids}
use atlas_net.Ledger.State.{id_of}
use atlas_net.Handoff.Maps.{Map, lookup, assign, modify, erase, erase_all, listed}

pub data AuthorityState : Type 0 where
  authoritative : AuthorityState
  passing : AuthorityState

pub record AuthorityEntry : Type 0 where
  pub entity_snapshot : AtlasEntity
  pub authority_state : AuthorityState
  pub passing_to : Option NetworkIdentity

pub record AuthorityTelemetryRow : Type 0 where
  pub entity_id : Uuid
  pub owner : NetworkIdentity
  pub entity_snapshot : AtlasEntity
  pub world : ℕ
  pub position : Vec3
  pub is_client : Bool
  pub client_id : Uuid

-- `authorityByEntityId`
abbrev pub Tracker : Type 0
Tracker = Map AuthorityEntry

abbrev pub reset : Tracker
reset = []

abbrev pub count : Tracker → ℕ
count t = length t

unfoldable pub is_passing_state : AuthorityState → Bool
is_passing_state authoritative = false
is_passing_state passing = true

unfoldable pub get_owned_entity_snapshots : Tracker → List AtlasEntity
get_owned_entity_snapshots t = map (λ x. x.1.entity_snapshot) t

unfoldable pub row : NetworkIdentity → Uuid × AuthorityEntry → AuthorityTelemetryRow
row self x = record {
  entity_id = x.0;
  owner = self;
  entity_snapshot = x.1.entity_snapshot;
  world = x.1.entity_snapshot.base.transform.world;
  position = x.1.entity_snapshot.base.transform.position;
  is_client = x.1.entity_snapshot.base.is_client;
  client_id = x.1.entity_snapshot.base.client_id;
}

unfoldable pub collect_telemetry_rows : NetworkIdentity → Tracker → List AuthorityTelemetryRow
collect_telemetry_rows self t = map (row self) t

-- The entry passes to that target.
unfoldable pub passes_to :
    (NetworkIdentity → NetworkIdentity → Bool) → NetworkIdentity → AuthorityEntry → Bool
passes_to same target x = elim x.passing_to [
  | none ↦ false
  | some to ↦ is_passing_state x.authority_state && same to target
]

unfoldable pub pass : NetworkIdentity → AuthorityEntry → AuthorityEntry
pass target x = record x { authority_state = passing; passing_to = some target }

module _ (u : Uuids) where
  -- One round of the first loop of `SetOwnedEntities`.
  unfoldable pub set_owned : AtlasEntity → Tracker → Tracker
  set_owned e t = elim (lookup u (id_of e) t) [
    | none ↦
        assign u (id_of e)
          (record { entity_snapshot = e; authority_state = authoritative; passing_to = none }) t
    | some x ↦ modify u (id_of e) (λ x. record x { entity_snapshot = e }) t
  ]

  unfoldable pub set_owned_each : List AtlasEntity → Tracker → Tracker
  set_owned_each [] t = t
  set_owned_each (e ∷ es) t = set_owned_each es (set_owned e t)

  -- The keys that are not among `keep`.
  unfoldable pub to_remove : List Uuid → Tracker → List Uuid
  to_remove keep [] = []
  to_remove keep (x ∷ xs) =
      let rest = to_remove keep xs in if listed u x.0 keep then rest else x.0 ∷ rest

  unfoldable pub set_owned_entities : List AtlasEntity → Tracker → Tracker
  set_owned_entities es t =
      let t1 = set_owned_each es t in erase_all u (to_remove (map id_of es) t1) t1

  unfoldable pub mark_authoritative : Uuid → Tracker → Tracker
  mark_authoritative id t =
      modify u id (λ x. record x { authority_state = authoritative; passing_to = none }) t

  unfoldable pub set_authority_state :
      Uuid → AuthorityState → Option NetworkIdentity → Tracker → Tracker
  set_authority_state id state to t =
      modify u id (λ x. record x { authority_state = state; passing_to = to }) t

  unfoldable pub remove_entity : Uuid → Tracker → Tracker
  remove_entity id t = erase u id t

  unfoldable pub get_passing_target : Uuid → Tracker → Option NetworkIdentity
  get_passing_target id t = elim (lookup u id t) [
    | none ↦ none
    | some x ↦ if is_passing_state x.authority_state then x.passing_to else none
  ]

  unfoldable pub is_passing : Uuid → Tracker → Bool
  is_passing id t = elim (lookup u id t) [
    | none ↦ false
    | some x ↦ elim x.passing_to [ none ↦ false | some to ↦ is_passing_state x.authority_state ]
  ]

  module _ (same : NetworkIdentity → NetworkIdentity → Bool) where
    unfoldable pub is_passing_to : Uuid → NetworkIdentity → Tracker → Bool
    is_passing_to id target t = elim (lookup u id t) [
      | none ↦ false
      | some x ↦ passes_to same target x
    ]

    unfoldable pub mark_passing : Uuid → NetworkIdentity → Tracker → Bool × Tracker
    mark_passing id target t = elim (lookup u id t) [
      | none ↦ (false, t)
      | some x ↦ if passes_to same target x then (false, t) else (true, modify u id (pass target) t)
    ]
