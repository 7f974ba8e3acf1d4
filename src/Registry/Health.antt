-- ===== src/Registry/Health.antt =====
-- `HealthManifest` (AtlasNet/lib/Native/Interlink/Database/HealthManifest.hpp) with strings as keys, what the
-- watchdog does about a failed check (AtlasNet/runtime/watchdog/src/WatchDog.cpp), and
-- `HeuristicManifest::RequeueClaimedBound`. The doubles of the C++ library are a parameter; the time is an
-- argument. Logging, sleeping and stopping are left out.
use atlas_net.Prelude.{
  ltb, Bool, true, false, List, [], ◌∷◌, Option, some, none, if◌then◌else◌, length,
}
use atlas_net.Bytes.Result.{ok, err, invalid_argument}
use atlas_net.Bytes.Reader
use atlas_net.Packets.Hash.{codes}
use atlas_net.Network.Identity
use atlas_net.Network.Identity.{NetworkIdentity}
use atlas_net.Network.Names.{to_string}
use atlas_net.Handoff.Maps.{Map}
use atlas_net.Interlink.Run.{Run, done, threw, ◌>>=◌}
use atlas_net.Manifest.Bounds.{identity_bytes}
use atlas_net.Registry.Tables.{Text, Tables}

-- `now + _HEALTH_PING_TIMESTAMP_LIFE_MS * 0.001`, `>`, `std::to_string` and `std::stod`, which throws
-- where there is no number.
pub record Doubles : Type 1 where
  pub Double : Type 0
  pub ttl : Double → Double
  pub greater : Double → Double → Bool
  pub print : Double → Text
  pub stod : Text → Option Double

abbrev pub health_ping_table : Text
health_ping_table = codes "Health_Ping"

abbrev pub claimed_hash_table : Text
claimed_hash_table = codes "{Heuristic_Bounds}:Claimed_NID2BID"

abbrev pub pending_hash_table : Text
pending_hash_table = codes "{Heuristic_Bounds}:Pending"

-- The first four bytes.
abbrev pub first_four : Text → Text
first_four (a ∷ b ∷ c ∷ d ∷ rest) = a ∷ b ∷ c ∷ d ∷ []
first_four v = v

module _ (doubles : Doubles) where
  unfoldable pub all_pings : Map Text → Run (List (Text × doubles.Double))
  all_pings [] = done []
  all_pings (x ∷ xs) = elim (doubles.stod x.1) [
    | none ↦ threw invalid_argument
    | some d ↦ all_pings xs >>= λ ys. done ((x.0, d) ∷ ys)
  ]

  unfoldable pub expired_of : doubles.Double → List (Text × doubles.Double) → List Text
  expired_of now [] = []
  expired_of now (x ∷ xs) =
      let rest = expired_of now xs in if doubles.greater x.1 now then rest else x.0 ∷ rest

  unfoldable pub live_of : doubles.Double → List (Text × doubles.Double) → List Text
  live_of now [] = []
  live_of now (x ∷ xs) =
      let rest = live_of now xs in if doubles.greater x.1 now then rest else x.0 ∷ rest

module _ (db : Tables) where
  -- The script runs in one piece.
  unfoldable pub requeue_claimed_bound : Text → db.State → Bool × db.State
  requeue_claimed_bound claim_key s = elim (db.hget claimed_hash_table claim_key s) [
    | none ↦ (false, s)
    | some v ↦ if ltb (length v) 4 then (false, s) else (
      true,
      db.hdel claimed_hash_table claim_key (db.hset pending_hash_table (first_four v) v s),
    )
  ]

  unfoldable pub remove_ping : Text → db.State → db.State
  remove_ping key s = db.hdel health_ping_table key s

  module _ (text : Text → Text) where
    -- The watchdog's `onHealthCheckFail`.
    unfoldable pub on_health_check_fail : NetworkIdentity → Text → db.State → db.State
    on_health_check_fail who key s =
        remove_ping key (requeue_claimed_bound (to_string text who) s).1

    unfoldable pub fail_each : List Text → db.State → Run db.State
    fail_each [] s = done s
    fail_each (k ∷ ks) s = elim (Identity.deserialize (Reader.new k)) [
      | err e ↦ threw e
      | ok r ↦ fail_each ks (on_health_check_fail r.0 k s)
    ]

  module _ (doubles : Doubles) where
    unfoldable pub health_update : NetworkIdentity → doubles.Double → db.State → db.State
    health_update who now s =
        db.hset health_ping_table (identity_bytes who) (doubles.print (doubles.ttl now)) s

    unfoldable pub get_all_pings : db.State → Run (List (Text × doubles.Double))
    get_all_pings s = all_pings doubles (db.hget_all health_ping_table s)

    unfoldable pub get_expired_pings : doubles.Double → db.State → Run (List Text)
    get_expired_pings now s = get_all_pings s >>= λ pings. done (expired_of doubles now pings)

    unfoldable pub get_live_pings : doubles.Double → db.State → Run (List Text)
    get_live_pings now s = get_all_pings s >>= λ pings. done (live_of doubles now pings)

    -- A round of the thread of `ScheduleHealthChecks`.
    unfoldable pub check_round : (Text → Text) → doubles.Double → db.State → Run db.State
    check_round text now s = get_expired_pings now s >>= λ keys. fail_each text keys s
