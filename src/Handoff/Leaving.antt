-- ===== src/Handoff/Leaving.antt =====
-- Which handoffs `SH_BorderHandoffPlanner::PlanAndSendAll` starts.
use atlas_net.Prelude.{
  ℕ, ◌≡◌, refl, sym, ap, ◌∙◌, inl, inr, Bool, true, false, List, [], ◌∷◌, ◌++◌, some, none,
  if◌then◌else◌, All, Option-cases, Bool-cases, some-cancel,
}
use mathlib.Core.Path.{subst}
use atlas_net.Bytes.Sequence.{All-map}
use atlas_net.Entity.Full.{AtlasEntity}
use atlas_net.Network.Identity.{NetworkIdentity}
use atlas_net.Ledger.Uuids.{Uuid, Uuids}
use atlas_net.Ledger.State.{id_of}
use atlas_net.Heuristic.Floats.{Floats}
use atlas_net.Heuristic.Geometry.{contains}
use atlas_net.Heuristic.Grid.{GridShape}
use atlas_net.Handoff.Maps.{lookup, true-ne-false}
use atlas_net.Handoff.Tracker.{
  Tracker, get_owned_entity_snapshots, is_passing, is_passing_to, mark_passing,
}
use atlas_net.Handoff.Mailbox.{PendingOutgoingHandoff}
use atlas_net.Handoff.Marks.{is_passing_by_entry, passing_by_entry, mark_passing_set, some-ne-none}
use atlas_net.Handoff.Planner.{
  Claims, Plan, ℤ, Round, destination, transfer_time, find_bounds, plan_each,
}
use atlas_net.Handoff.Rounds.{
  Outcome, passes, at_home, nowhere, leaves, round-Outcome, outcome_keeps,
}
use atlas_net.Handoff.Places.{HasPlace, destination_lem}
use atlas_net.Handoff.Planning.{
  planned, first, plan_none, plan_some, planned-tracker, run, run-some,
}

module _ (same : NetworkIdentity → NetworkIdentity → Bool) (u : Uuids) (f : Floats)
    (self : NetworkIdentity) (claims : Claims) (own : GridShape) where
  -- Between the trackers `t0` and `t1`, the handoff `h` of one of the entities `es` is right.
  pub record IsJustified (t0 t1 : Tracker) (time : ℕ) (es : List AtlasEntity)
      (h : PendingOutgoingHandoff) : Type 0 where
    pub entity : AtlasEntity
    pub before : List AtlasEntity
    pub after : List AtlasEntity
    pub listed : es ≡ before ++ entity ∷ after
    pub of_entity : id_of entity ≡ h.entity_id
    pub was_not_passing : is_passing u h.entity_id t0 ≡ false
    pub is_passing_now : is_passing_to u same h.entity_id h.target_identity t1 ≡ true
    pub outside : contains f own.aabb entity.base.transform.position ≡ false
    pub other : same h.target_identity self ≡ false
    pub place : HasPlace same f self claims entity.base.transform.position h.target_identity
    pub in_time : h.transfer_time_us ≡ time

  module _ (servers : ℕ → List NetworkIdentity)
      (refl' : (a : NetworkIdentity) → same a a ≡ true) where
    abbrev plan : ℕ → List AtlasEntity → ℕ → Tracker → Plan
    plan time es n t = planned same u f self claims servers own time es n t

    abbrev head : AtlasEntity → ℕ → Tracker → Round
    head e n t = first same u f self claims servers own e n t

    head-Outcome :
        (e : AtlasEntity) (n : ℕ) (t : Tracker)
        → Outcome same u f self claims servers own e n t (head e n t)
    head-Outcome e n t = round-Outcome same u f self claims servers own e n t

    head_keeps :
        (e : AtlasEntity) (n : ℕ) (t : Tracker) (id : Uuid)
        → is_passing u id t ≡ true
        → lookup u id (head e n t).tracker ≡ lookup u id t
    head_keeps e n t id h =
        outcome_keeps same u f self claims servers own e n t (head e n t) id (head-Outcome e n t) h

    plan_keeps :
        (time : ℕ) (es : List AtlasEntity) (n : ℕ) (t : Tracker) (id : Uuid)
        → is_passing u id t ≡ true
        → lookup u id (plan time es n t).tracker ≡ lookup u id t
    unfolding plan_each
    plan_keeps time [] n t id h = refl
    plan_keeps time (e ∷ es) n t id h =
        let kept = head_keeps e n t id h in
        ap (lookup u id) (planned-tracker same u f self claims servers own time e es n t)
        ∙ plan_keeps time es (head e n t).asked (head e n t).tracker id
            (is_passing_by_entry u id (head e n t).tracker t kept ∙ h)
        ∙ kept

    -- What is known when a round starts a handoff.
    Started : AtlasEntity → ℕ → Tracker → Round → NetworkIdentity → Type 0
    Started e n t r to =
        (is_passing u (id_of e) t ≡ false)
        × (contains f own.aabb e.base.transform.position ≡ false)
        × (destination same f self claims (servers n) e.base.transform.position ≡ some to)
        × (is_passing u (id_of e) r.tracker ≡ true)
        × (is_passing_to u same (id_of e) to r.tracker ≡ true)

    outcome-Started :
        (e : AtlasEntity) (n : ℕ) (t : Tracker) (r : Round) (to : NetworkIdentity)
        → Outcome same u f self claims servers own e n t r
        → r.target ≡ some to
        → Started e n t r to
    unfolding Started
    outcome-Started e n t r to (passes there) h = absurd (some-ne-none (sym h))
    outcome-Started e n t r to (at_home not_yet home) h = absurd (some-ne-none (sym h))
    outcome-Started e n t r to (nowhere not_yet away none_is) h = absurd (some-ne-none (sym h))
    outcome-Started e n t r to (leaves by not_yet away is) h =
        elim (Bool-cases (mark_passing u same (id_of e) by t).0) [
          | inr unset' ↦
              absurd (some-ne-none (sym (sym (ap (λ b. if b then some by else none) unset') ∙ h)))
          | inl set ↦
              let same_by = some-cancel (sym (ap (λ b. if b then some by else none) set) ∙ h) in
              let (now_passing, passing_by) =
                mark_passing_set u same (id_of e) by t (refl' by) set in
              (
                not_yet,
                away,
                is ∙ ap some same_by,
                now_passing,
                subst
                    (λ y.
                      is_passing_to u same (id_of e) y (mark_passing u same (id_of e) by t).1
                      ≡ true)
                    same_by passing_by,
              )
        ]

    -- What is right behind the first round is right from the start.
    IsJustified-later :
        (e : AtlasEntity) (es : List AtlasEntity) (n : ℕ) (t t1 : Tracker) (time : ℕ)
        (h : PendingOutgoingHandoff)
        → IsJustified (head e n t).tracker t1 time es h
        → IsJustified t t1 time (e ∷ es) h
    IsJustified-later e es n t t1 time h j = record {
      entity = j.entity;
      before = e ∷ j.before;
      after = j.after;
      listed = ap (◌∷◌ e) j.listed;
      of_entity = j.of_entity;
      was_not_passing = elim (Bool-cases (is_passing u h.entity_id t)) [
        | inr not_yet ↦ not_yet
        | inl there ↦ absurd (
            true-ne-false (
              sym (
                is_passing_by_entry u h.entity_id (head e n t).tracker t
                  (head_keeps e n t h.entity_id there)
                ∙ there)
              ∙ j.was_not_passing))
      ];
      is_passing_now = j.is_passing_now;
      outside = j.outside;
      other = j.other;
      place = j.place;
      in_time = j.in_time;
    }

    IsJustified-first :
        (e : AtlasEntity) (es : List AtlasEntity) (n : ℕ) (t : Tracker) (time : ℕ)
        (to : NetworkIdentity)
        → (head e n t).target ≡ some to
        → IsJustified t
            (plan time es (head e n t).asked (head e n t).tracker).tracker
            time
            (e ∷ es)
            (record { entity_id = id_of e; target_identity = to; transfer_time_us = time })
    unfolding Started
    IsJustified-first e es n t time to h =
        let r = head e n t in
        let (not_yet, away, is, now_passing, passing_to) =
          outcome-Started e n t r to (head-Outcome e n t) h in
        let (other, place) =
          destination_lem same f self claims (servers n) e.base.transform.position to is in
        record {
          entity = e;
          before = [];
          after = es;
          listed = refl;
          of_entity = refl;
          was_not_passing = not_yet;
          is_passing_now =
              passing_by_entry u same (id_of e) to _ r.tracker
                (plan_keeps time es r.asked r.tracker (id_of e) now_passing)
              ∙ passing_to;
          outside = away;
          other = other;
          place = place;
          in_time = refl;
        }

    plan-IsJustified :
        (time : ℕ) (es : List AtlasEntity) (n : ℕ) (t : Tracker)
        → All (IsJustified t (plan time es n t).tracker time es) (plan time es n t).outgoing
    unfolding plan_each
    plan-IsJustified time [] n t = tt
    plan-IsJustified time (e ∷ es) n t =
        let rest = plan time es (head e n t).asked (head e n t).tracker in
        let later =
          All-map (IsJustified-later e es n t rest.tracker time) rest.outgoing
            (plan-IsJustified time es (head e n t).asked (head e n t).tracker) in
        elim (Option-cases (head e n t).target) [
          | inl gone ↦
              subst (λ p. All (IsJustified t p.tracker time (e ∷ es)) p.outgoing)
                (sym (plan_none same u f self claims servers own time e es n t gone)) later
          | inr (to, is) ↦
              subst (λ p. All (IsJustified t p.tracker time (e ∷ es)) p.outgoing)
                (sym (plan_some same u f self claims servers own time e es n t to is))
                (IsJustified-first e es n t time to is, later)
        ]

    -- Where the comparison of identities is reflexive and this shard has claimed the bounds `own`, every
    -- handoff that `PlanAndSendAll` returns is of an entity of the tracker that was not passing before
    -- and passes to the handoff's target afterwards, that lies outside `own`, and whose target is not
    -- this shard and has claimed bounds with the entity in them, unless it compares equal to a default
    -- constructed identity; its time is the present plus the delay.
    pub plan_and_send_all_lem :
        (delay : ℤ) (now : ℕ) (t : Tracker)
        → find_bounds same self claims ≡ some own
        → All
            (IsJustified t
              (run same u f self servers claims delay now t).tracker
              (transfer_time delay now)
              (get_owned_entity_snapshots t))
            (run same u f self servers claims delay now t).outgoing
    plan_and_send_all_lem delay now t h =
        let time = transfer_time delay now in
        let es = get_owned_entity_snapshots t in
        subst (λ p. All (IsJustified t p.tracker time es) p.outgoing)
          (sym (run-some same u f self servers claims delay now t own h))
          (plan-IsJustified time es 0 t)
