-- ===== src/Handoff/Connections.antt =====
-- `SH_HandoffConnectionManager` (AtlasNet/lib/Native-exc/EntityHandoff/ServerHandoff). The calls of
-- `Interlink::CloseConnectionTo`, which Interlink.Send models, are recorded. Logging is left out.
use atlas_net.Prelude.{
  ℕ, Bool, true, false, not, List, [], ◌∷◌, map, Option, some, none, if◌then◌else◌,
}
use atlas_net.Network.Identity.{NetworkIdentity}
use atlas_net.Handoff.Database.{Database, Text}
use atlas_net.Handoff.Leases
use atlas_net.Handoff.Leases.{
  LeaseOptions, LeaseCoordinator, set_lease_enabled, reap_inactive_connections,
}

-- A coordinator that was not made, or that was reset, is `none`.
pub record ConnectionManager : Type 0 where
  pub self_identity : NetworkIdentity
  pub initialized : Bool
  pub active_connections : List NetworkIdentity
  pub lease_mode_enabled : Bool
  pub lease_coordinator : Option LeaseCoordinator

-- `Options{}` is an argument.
unfoldable pub init : LeaseOptions → NetworkIdentity → ConnectionManager → ConnectionManager
init options self m = record m {
  self_identity = self;
  active_connections = [];
  lease_coordinator = some (
      set_lease_enabled m.lease_mode_enabled
        (record { self_identity = self; options = options; last_activity_by_peer = [] }));
  initialized = true;
}

unfoldable pub set_lease_mode_enabled : Bool → ConnectionManager → ConnectionManager
set_lease_mode_enabled enabled m = elim m.lease_coordinator [
  | none ↦ record m { lease_mode_enabled = enabled }
  | some e ↦ record m {
    lease_mode_enabled = enabled;
    lease_coordinator = some (set_lease_enabled enabled e);
  }
]

module _ (same : NetworkIdentity → NetworkIdentity → Bool) where
  unfoldable pub insert_peer : NetworkIdentity → List NetworkIdentity → List NetworkIdentity
  insert_peer peer [] = peer ∷ []
  insert_peer peer (x ∷ xs) =
      let rest = insert_peer peer xs in if same x peer then x ∷ xs else x ∷ rest

  unfoldable pub erase_peer : NetworkIdentity → List NetworkIdentity → List NetworkIdentity
  erase_peer peer [] = []
  erase_peer peer (x ∷ xs) = let rest = erase_peer peer xs in if same x peer then rest else x ∷ rest

  -- What `onInactive` does for each peer.
  unfoldable pub erase_peers : List NetworkIdentity → List NetworkIdentity → List NetworkIdentity
  erase_peers [] active = active
  erase_peers (p ∷ ps) active = erase_peers ps (erase_peer p active)

  module _ (text : Text → Text) (db : Database) where
    -- The connections that are closed come with the result.
    unfoldable pub tick :
        ℕ → ConnectionManager → db.State → List NetworkIdentity × ConnectionManager × db.State
    tick now m d = if not m.initialized then ([], m, d) else elim m.lease_coordinator [
      | none ↦ ([], m, d)
      | some e ↦
          let (reaped, after, d') = reap_inactive_connections text db now e d in
          let peers = map (λ x. x.0) reaped in
          (
            peers,
            record m {
              active_connections = erase_peers peers m.active_connections;
              lease_coordinator = some after;
            },
            d',
          )
    ]

    unfoldable pub mark_connection_activity :
        ℕ → NetworkIdentity → ConnectionManager → db.State → ConnectionManager × db.State
    mark_connection_activity now peer m d =
        if not m.initialized
        then (m, d)
        else (let m' = record m { active_connections = insert_peer peer m.active_connections } in
            elim m.lease_coordinator [
              | none ↦ (m', d)
              | some e ↦
                  let (after, d') = Leases.mark_connection_activity text db same now peer e d in
                  (record m' { lease_coordinator = some after }, d')
            ])

    unfoldable pub shutdown :
        ConnectionManager → db.State → List NetworkIdentity × ConnectionManager × db.State
    shutdown m d = if not m.initialized then ([], m, d) else (
      m.active_connections,
      record m { active_connections = []; lease_coordinator = none; initialized = false },
      elim m.lease_coordinator [ none ↦ d | some e ↦ (Leases.clear text db e d).1 ],
    )
