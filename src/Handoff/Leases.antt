-- ===== src/Handoff/Leases.antt =====
-- `SH_HandoffConnectionLeaseCoordinator` (AtlasNet/lib/Native-exc/EntityHandoff/ServerHandoff). A time point
-- is a number of nanoseconds of the steady clock, which does not go back; intervals are in seconds. The
-- calls of `onInactive` are recorded.
use atlas_net.Prelude.{
  ℕ, ◌-◌, ◌/◌, ◌^◌, leb, Bool, true, false, List, [], ◌∷◌, ◌++◌, some, none, if◌then◌else◌,
  lex_less, lex_same,
}
use atlas_net.Network.Identity.{NetworkIdentity}
use atlas_net.Network.Names.{to_string}
use atlas_net.Handoff.Database.{Database, Text}

pub record LeaseOptions : Type 0 where
  pub lease_enabled : Bool
  pub inactivity_timeout : ℕ
  pub lease_ttl : ℕ
  pub lease_key_prefix : Text

pub record LeaseCoordinator : Type 0 where
  pub self_identity : NetworkIdentity
  pub options : LeaseOptions
  pub last_activity_by_peer : List (NetworkIdentity × ℕ)

unfoldable pub set_lease_enabled : Bool → LeaseCoordinator → LeaseCoordinator
set_lease_enabled enabled e = record e { options = record e.options { lease_enabled = enabled } }

-- The two names, the smaller one first.
unfoldable pub pair_key : Text → Text → Text → Text
pair_key prefix self peer =
    if lex_less self peer then prefix ++ self ++ 124 ∷ peer else prefix ++ peer ++ 124 ∷ self

module _ (text : Text → Text) where
  unfoldable pub build_lease_key : LeaseCoordinator → NetworkIdentity → Text
  build_lease_key e peer =
      pair_key e.options.lease_key_prefix (to_string text e.self_identity) (to_string text peer)

  module _ (db : Database) where
    -- Somebody else has the lease.
    unfoldable pub taken : Text → Text → db.State → Bool
    taken key owner d = elim (db.get key d) [
      | none ↦ false
      | some current ↦ if lex_same current owner then false else true
    ]

    unfoldable pub try_acquire_or_refresh_lease :
        LeaseCoordinator → NetworkIdentity → db.State → Bool × db.State
    try_acquire_or_refresh_lease e peer d =
        let key = build_lease_key e peer in
        let owner = to_string text e.self_identity in
        if e.options.lease_enabled
        then (if taken key owner d
            then (false, d)
            else (true, db.expire key e.options.lease_ttl (db.set key owner d)))
        else (true, d)

    unfoldable pub release_lease_if_owned : LeaseCoordinator → NetworkIdentity → db.State → db.State
    release_lease_if_owned e peer d =
        let key = build_lease_key e peer in
        if e.options.lease_enabled
        then elim (db.get key d) [
          | none ↦ d
          | some current ↦
              if lex_same current (to_string text e.self_identity) then db.del_key key d else d
        ]
        else d

    unfoldable pub release_each :
        LeaseCoordinator → List (NetworkIdentity × ℕ) → db.State → db.State
    release_each e [] d = d
    release_each e (x ∷ xs) d = release_each e xs (release_lease_if_owned e x.0 d)

    unfoldable pub clear : LeaseCoordinator → db.State → LeaseCoordinator × db.State
    clear e d = (record e { last_activity_by_peer = [] }, release_each e e.last_activity_by_peer d)

    module _ (same : NetworkIdentity → NetworkIdentity → Bool) where
      -- `lastActivityByPeer[peer] = now`
      unfoldable pub set_activity :
          NetworkIdentity → ℕ → List (NetworkIdentity × ℕ) → List (NetworkIdentity × ℕ)
      set_activity peer now [] = (peer, now) ∷ []
      set_activity peer now (x ∷ xs) =
          let rest = set_activity peer now xs in if same x.0 peer then (x.0, now) ∷ xs else x ∷ rest

      unfoldable pub mark_connection_activity :
          ℕ → NetworkIdentity → LeaseCoordinator → db.State → LeaseCoordinator × db.State
      mark_connection_activity now peer e d =
          let marked = record e {
            last_activity_by_peer = set_activity peer now e.last_activity_by_peer;
          } in
          (marked, (try_acquire_or_refresh_lease marked peer d).1)

    unfoldable pub inactive_for : ℕ → ℕ → ℕ
    inactive_for now last = (now - last) / 10 ^ 9

    -- The loop of `ReapInactiveConnections` together with the one that erases what it collects: the
    -- peers that were reaped with how long they were inactive, and what is left of the map.
    unfoldable pub reap_each :
        ℕ
        → LeaseCoordinator
        → List (NetworkIdentity × ℕ)
        → db.State
        → List (NetworkIdentity × ℕ) × List (NetworkIdentity × ℕ) × db.State
    reap_each now e [] d = ([], [], d)
    reap_each now e (x ∷ xs) d =
        let due = leb e.options.inactivity_timeout (inactive_for now x.1) in
        let rest = reap_each now e xs (if due then release_lease_if_owned e x.0 d else d) in
        if due
        then ((x.0, inactive_for now x.1) ∷ rest.0, rest.1, rest.2)
        else (rest.0, x ∷ rest.1, rest.2)

    unfoldable pub reap_inactive_connections :
        ℕ → LeaseCoordinator → db.State → List (NetworkIdentity × ℕ) × LeaseCoordinator × db.State
    reap_inactive_connections now e d =
        let r = reap_each now e e.last_activity_by_peer d in
        (r.0, record e { last_activity_by_peer = r.1 }, r.2)
