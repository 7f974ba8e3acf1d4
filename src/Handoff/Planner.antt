-- ===== src/Handoff/Planner.antt =====
-- `SH_BorderHandoffPlanner` (AtlasNet/lib/Native-exc/EntityHandoff/ServerHandoff). The claimed bounds
-- are what the heuristic manifest answers, `servers n` is the registry's answer to the question `n` of
-- a run. The calls of the packet manager and of the transfer manifest are recorded in their order.
-- Logging is left out.
use atlas_net.Prelude.{ℕ, ◌+◌, ◌%◌, ◌^◌, Bool, List, [], ◌∷◌, Option, some, none, if◌then◌else◌}
use atlas_net.Bytes.Writer.{Vec3}
use atlas_net.Entity.Full.{AtlasEntity}
use atlas_net.Network.Identity.{NetworkIdentity, e_invalid, nil_uuid}
use atlas_net.Ledger.Uuids.{Uuid, Uuids}
use atlas_net.Ledger.State.{id_of}
use atlas_net.Heuristic.Floats.{Floats}
use atlas_net.Heuristic.Geometry.{contains}
use atlas_net.Heuristic.Grid.{GridShape}
use atlas_net.Handoff.Tracker.{
  Tracker, get_owned_entity_snapshots, is_passing, mark_authoritative, mark_passing,
}
use atlas_net.Handoff.Mailbox.{PendingOutgoingHandoff}

abbrev pub Claims : Type 0
Claims = List (NetworkIdentity × GridShape)

-- `std::chrono::microseconds::count` is signed.
pub data ℤ : Type 0 where
  pos : ℕ → ℤ
  negsuc : ℕ → ℤ

unfoldable pub delay_us : ℤ → ℕ
delay_us (pos n) = n
delay_us (negsuc n) = 0

-- The time is unsigned and has 64 bits.
unfoldable pub transfer_time : ℤ → ℕ → ℕ
transfer_time delay now = (now + delay_us delay) % 2 ^ 64

pub data Call : Type 0 where
  send_entity_handoff : NetworkIdentity → AtlasEntity → ℕ → Call
  mark_transfer_started : Uuid → NetworkIdentity → NetworkIdentity → ℕ → Call

-- What the planner does for one entity: the target of a handoff that it starts, the number of
-- questions to the registry so far, and the tracker.
pub record Round : Type 0 where
  pub target : Option NetworkIdentity
  pub asked : ℕ
  pub tracker : Tracker

pub record Plan : Type 0 where
  pub outgoing : List PendingOutgoingHandoff
  pub calls : List Call
  pub tracker : Tracker

abbrev pub nothing : Tracker → Plan
nothing t = record { outgoing = []; calls = []; tracker = t }

-- A key that was default constructed.
abbrev pub unset : NetworkIdentity
unset = record { type = e_invalid; id = nil_uuid }

module _ (same : NetworkIdentity → NetworkIdentity → Bool) where
  unfoldable pub select_target : Floats → NetworkIdentity → Vec3 → Claims → NetworkIdentity
  select_target f self p [] = unset
  select_target f self p (c ∷ cs) =
      let rest = select_target f self p cs in
      if same c.0 self then rest else if contains f c.1.aabb p then c.0 else rest

  unfoldable pub resolve : NetworkIdentity → List NetworkIdentity → Option NetworkIdentity
  resolve key [] = none
  resolve key (x ∷ xs) = let rest = resolve key xs in if same x key then some x else rest

  -- The target of a handoff, unless it is this shard.
  unfoldable pub destination :
      Floats → NetworkIdentity → Claims → List NetworkIdentity → Vec3 → Option NetworkIdentity
  destination f self claims servers p = elim (resolve (select_target f self p claims) servers) [
    | none ↦ none
    | some to ↦ if same to self then none else some to
  ]

  unfoldable pub find_bounds : NetworkIdentity → Claims → Option GridShape
  find_bounds self [] = none
  find_bounds self (c ∷ cs) =
      let rest = find_bounds self cs in if same c.0 self then some c.1 else rest

  module _ (u : Uuids) (f : Floats) (self : NetworkIdentity) (claims : Claims)
      (servers : ℕ → List NetworkIdentity) where
    -- The loop's body.
    unfoldable pub round : GridShape → AtlasEntity → ℕ → Tracker → Round
    round own e n t =
        if is_passing u (id_of e) t
        then record { target = none; asked = n; tracker = t }
        else if contains f own.aabb e.base.transform.position
        then record { target = none; asked = n; tracker = mark_authoritative u (id_of e) t }
        else elim (destination f self claims (servers n) e.base.transform.position) [
          | none ↦ record { target = none; asked = n + 1; tracker = t }
          | some to ↦
              let marked = mark_passing u same (id_of e) to t in
              record {
                target = if marked.0 then some to else none;
                asked = n + 1;
                tracker = marked.1;
              }
        ]

    unfoldable pub plan_each : GridShape → ℕ → List AtlasEntity → ℕ → Tracker → Plan
    plan_each own time [] n t = nothing t
    plan_each own time (e ∷ es) n t =
        let r = round own e n t in
        let rest = plan_each own time es r.asked r.tracker in
        elim r.target [
          | none ↦ rest
          | some to ↦ record rest {
            outgoing =
                record { entity_id = id_of e; target_identity = to; transfer_time_us = time }
                ∷ rest.outgoing;
            calls =
                send_entity_handoff to e time
                ∷ mark_transfer_started (id_of e) self to time
                ∷ rest.calls;
          }
        ]

    unfoldable pub plan_and_send_all : ℤ → ℕ → Tracker → Plan
    plan_and_send_all delay now t = elim claims [
      | [] ↦ nothing t
      | c ∷ cs ↦ elim (find_bounds self (c ∷ cs)) [
        | none ↦ nothing t
        | some own ↦ plan_each own (transfer_time delay now) (get_owned_entity_snapshots t) 0 t
      ]
    ]
