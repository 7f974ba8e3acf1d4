-- ===== src/Handoff/Election.antt =====
-- `SH_OwnershipElection` (AtlasNet/lib/Native-exc/EntityHandoff/ServerHandoff). A time point is a number
-- of ticks; the servers are what the registry answers. Logging, with the two members that only serve
-- it, is left out.
use atlas_net.Prelude.{
  ℕ, ◌+◌, ◌-◌, ◌==◌, ltb, Bool, true, false, ◌&&◌, not, List, [], ◌∷◌, Option, some, none,
  if◌then◌else◌, lex_less, lex_same,
}
use atlas_net.Network.Identity.{NetworkIdentity, e_shard}
use atlas_net.Network.Names.{to_string, is_empty}
use atlas_net.Handoff.Database.{Database, Text}

pub record Options : Type 0 where
  pub eval_interval : ℕ
  pub owner_key : Text

pub record OwnershipElection : Type 0 where
  pub self_identity : NetworkIdentity
  pub options : Options
  pub is_owner : Bool
  pub ownership_evaluated : Bool
  pub last_owner_eval_time : ℕ

-- The time that `Reset` sets is not read before `Evaluate` sets it again, so it does not matter that
-- it is 0 where the interval is longer than the clock has run.
unfoldable pub reset : ℕ → OwnershipElection → OwnershipElection
reset now e = record e {
  is_owner = false;
  ownership_evaluated = false;
  last_owner_eval_time = now - e.options.eval_interval;
}

unfoldable pub invalidate : OwnershipElection → OwnershipElection
invalidate e = record e { ownership_evaluated = false }

unfoldable pub force_not_owner : OwnershipElection → OwnershipElection
force_not_owner e = record e { is_owner = false }

-- The last result is not too old.
unfoldable pub is_recent : ℕ → OwnershipElection → Bool
is_recent now e =
    e.ownership_evaluated && ltb now (e.last_owner_eval_time + e.options.eval_interval)

unfoldable pub is_shard : NetworkIdentity → Bool
is_shard id = id.type == e_shard

module _ (text : Text → Text) where
  -- One round of the loop of `SelectBootstrapOwner`.
  unfoldable pub pick : Option Text → NetworkIdentity → Option Text
  pick best id = if not (is_shard id) then best else elim best [
    | none ↦ some (to_string text id)
    | some b ↦ if lex_less (to_string text id) b then some (to_string text id) else some b
  ]

  unfoldable pub pick_each : Option Text → List NetworkIdentity → Option Text
  pick_each best [] = best
  pick_each best (x ∷ xs) = pick_each (pick best x) xs

  unfoldable pub select_bootstrap_owner : List NetworkIdentity → Option Text
  select_bootstrap_owner servers = pick_each none servers

  -- `ownerStillValid`
  unfoldable pub still_valid : Text → List NetworkIdentity → Bool
  still_valid owner [] = false
  still_valid owner (x ∷ xs) =
      let rest = still_valid owner xs in
      if not (is_shard x) then rest else if lex_same (to_string text x) owner then true else rest

  module _ (db : Database) (key : Text) where
    -- The bootstrap owner is written to the database, where there is one.
    unfoldable pub bootstrap : List NetworkIdentity → db.State → Option Text × db.State
    bootstrap servers d = elim (select_bootstrap_owner servers) [
      | none ↦ (none, d)
      | some b ↦ (some b, db.set key b d)
    ]

    -- The owner that the database has, or the bootstrap owner.
    unfoldable pub selected : List NetworkIdentity → db.State → Option Text × db.State
    selected servers d = elim (db.get key d) [
      | none ↦ bootstrap servers d
      | some b ↦ if is_empty b then bootstrap servers d else (some b, d)
    ]

    -- An owner that is not a shard of the registry any more is replaced.
    unfoldable pub confirmed :
        List NetworkIdentity → Option Text × db.State → Option Text × db.State
    confirmed servers r = elim r.0 [
      | none ↦ r
      | some b ↦ if still_valid b servers then r else bootstrap servers r.1
    ]

  unfoldable pub evaluate :
      (db : Database)
      → List NetworkIdentity
      → ℕ
      → OwnershipElection
      → db.State
      → OwnershipElection × db.State
  evaluate db servers now e d =
      if is_recent now e
      then (e, d)
      else (let r =
            confirmed db e.options.owner_key servers (selected db e.options.owner_key servers d) in
          (
            record e {
              is_owner = elim r.0 [
                | none ↦ false
                | some b ↦ lex_same b (to_string text e.self_identity)
              ];
              ownership_evaluated = true;
              last_owner_eval_time = now;
            },
            r.1,
          ))
