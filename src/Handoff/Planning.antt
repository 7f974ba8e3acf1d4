-- ===== src/Handoff/Planning.antt =====
-- A second run of `SH_BorderHandoffPlanner::PlanAndSendAll`.
use atlas_net.Prelude.{
  ℕ, ◌≡◌, refl, sym, ap, ◌∙◌, inl, inr, true, List, [], ◌∷◌, some, none, if◌then◌else◌, All,
  Option-cases, Bool,
}
use mathlib.Core.Path.{subst}
use atlas_net.Bytes.Sequence.{All-map}
use atlas_net.Entity.Full.{AtlasEntity}
use atlas_net.Network.Identity.{NetworkIdentity}
use atlas_net.Ledger.Uuids.{Uuids}
use atlas_net.Ledger.State.{id_of}
use atlas_net.Heuristic.Floats.{Floats}
use atlas_net.Heuristic.Grid.{GridShape}
use atlas_net.Handoff.Maps.{true-ne-false}
use atlas_net.Handoff.Tracker.{Tracker, get_owned_entity_snapshots}
use atlas_net.Handoff.Marks.{mark_passing-cases, some-ne-none}
use atlas_net.Handoff.Planner.{
  Claims, Plan, Round, ℤ, send_entity_handoff, mark_transfer_started, nothing, find_bounds,
  destination, transfer_time, plan_each, plan_and_send_all,
}
use atlas_net.Handoff.Rounds.{
  Outcome, passes, at_home, nowhere, leaves, rounded, round-Outcome, outcome-snapshots, IsSettled,
  outcome_keeps-IsSettled, outcome-IsSettled, goal,
}

module _ (same : NetworkIdentity → NetworkIdentity → Bool) (u : Uuids) (f : Floats)
    (self : NetworkIdentity) (claims : Claims) (servers : ℕ → List NetworkIdentity)
    (own : GridShape) where
  abbrev pub planned : ℕ → List AtlasEntity → ℕ → Tracker → Plan
  planned time es n t = plan_each same u f self claims servers own time es n t

  abbrev pub first : AtlasEntity → ℕ → Tracker → Round
  first e n t = rounded same u f self claims servers own e n t

  pub plan_none :
      (time : ℕ) (e : AtlasEntity) (es : List AtlasEntity) (n : ℕ) (t : Tracker)
      → (first e n t).target ≡ none
      → planned time (e ∷ es) n t ≡ planned time es (first e n t).asked (first e n t).tracker
  unfolding plan_each
  plan_none time e es n t h = rw (plan_each, h) refl

  pub plan_some :
      (time : ℕ) (e : AtlasEntity) (es : List AtlasEntity) (n : ℕ) (t : Tracker)
      (to : NetworkIdentity)
      → (first e n t).target ≡ some to
      → let rest = planned time es (first e n t).asked (first e n t).tracker in
        planned time (e ∷ es) n t ≡ record rest {
          outgoing =
              record { entity_id = id_of e; target_identity = to; transfer_time_us = time }
              ∷ rest.outgoing;
          calls =
              send_entity_handoff to e time
              ∷ mark_transfer_started (id_of e) self to time
              ∷ rest.calls;
        }
  unfolding plan_each
  plan_some time e es n t to h = rw (plan_each, h) refl

  pub planned-tracker :
      (time : ℕ) (e : AtlasEntity) (es : List AtlasEntity) (n : ℕ) (t : Tracker)
      → (planned time (e ∷ es) n t).tracker
        ≡ (planned time es (first e n t).asked (first e n t).tracker).tracker
  planned-tracker time e es n t = elim (Option-cases (first e n t).target) [
    | inl gone ↦ ap (λ p. p.tracker) (plan_none time e es n t gone)
    | inr (to, is) ↦ ap (λ p. p.tracker) (plan_some time e es n t to is)
  ]

  planned-snapshots :
      (time : ℕ) (es : List AtlasEntity) (n : ℕ) (t : Tracker)
      → get_owned_entity_snapshots (planned time es n t).tracker ≡ get_owned_entity_snapshots t
  unfolding plan_each
  planned-snapshots time [] n t = refl
  planned-snapshots time (e ∷ es) n t =
      ap get_owned_entity_snapshots (planned-tracker time e es n t)
      ∙ planned-snapshots time es (first e n t).asked (first e n t).tracker
      ∙ outcome-snapshots same u f self claims servers own e n t (first e n t)
          (round-Outcome same u f self claims servers own e n t)

  abbrev Settled : Tracker → AtlasEntity → Type 0
  Settled t e = IsSettled same u f self claims servers own t e

  planned_keeps-Settled :
      (time : ℕ) (es : List AtlasEntity) (n : ℕ) (t : Tracker) (d : AtlasEntity)
      → Settled t d
      → Settled (planned time es n t).tracker d
  unfolding plan_each
  planned_keeps-Settled time [] n t d h = h
  planned_keeps-Settled time (e ∷ es) n t d h =
      subst (λ s. Settled s d) (sym (planned-tracker time e es n t))
        (planned_keeps-Settled time es (first e n t).asked (first e n t).tracker d (
          outcome_keeps-IsSettled same u f self claims servers own e n t (first e n t) d
            (round-Outcome same u f self claims servers own e n t) h))

  module _ (refl' : (a : NetworkIdentity) → same a a ≡ true)
      (steady : (n : ℕ) → servers n ≡ servers 0) where
    planned-Settled :
        (time : ℕ) (es : List AtlasEntity) (n : ℕ) (t : Tracker)
        → All (Settled (planned time es n t).tracker) es
    planned-Settled time [] n t = tt
    planned-Settled time (e ∷ es) n t =
        subst (λ s. All (Settled s) (e ∷ es)) (sym (planned-tracker time e es n t))
          (
            planned_keeps-Settled time es (first e n t).asked (first e n t).tracker e (
                outcome-IsSettled same u f self claims servers own e n t (first e n t) refl'
                  (steady n) (round-Outcome same u f self claims servers own e n t)),
            planned-Settled time es (first e n t).asked (first e n t).tracker,
          )

    untargeted :
        (e : AtlasEntity) (n : ℕ) (t : Tracker) (r : Round)
        → Outcome same u f self claims servers own e n t r
        → Settled t e
        → r.target ≡ none
    untargeted e n t r (passes there) h = refl
    untargeted e n t r (at_home not_yet home) h = refl
    untargeted e n t r (nowhere not_yet away none_is) h = refl
    untargeted e n t r (leaves to not_yet away is) h = elim h [
      | inl (inl there) ↦ absurd (true-ne-false (sym there ∙ not_yet))
      | inr (inl home) ↦ absurd (true-ne-false (sym home ∙ away))
      | inr (inr lost) ↦ absurd (some-ne-none (sym (sym still ∙ is) ∙ lost))
      | inl (inr gone) ↦ elim (mark_passing-cases u same (id_of e) to t) [
        | inl (m, _) ↦ ap (λ p. if p.0 then some to else none) m
        | inr (x, known, _) ↦ absurd (some-ne-none (sym known ∙ gone))
      ]
    ]
      where
        still :
            goal same u f self claims servers own e n ≡ goal same u f self claims servers own e 0
        still = ap (λ x. destination same f self claims x e.base.transform.position) (steady n)

    planned_of_Settled :
        (time : ℕ) (es : List AtlasEntity) (n : ℕ) (t : Tracker)
        → All (Settled t) es
        → ((planned time es n t).outgoing ≡ []) × ((planned time es n t).calls ≡ [])
    unfolding plan_each
    planned_of_Settled time [] n t h = (refl, refl)
    planned_of_Settled time (e ∷ es) n t h =
        let o = round-Outcome same u f self claims servers own e n t in
        subst (λ p. (p.outgoing ≡ []) × (p.calls ≡ []))
          (sym (plan_none time e es n t (untargeted e n t (first e n t) o h.0)))
          (planned_of_Settled time es (first e n t).asked (first e n t).tracker (
            All-map
              (λ d.
                outcome_keeps-IsSettled same u f self claims servers own e n t (first e n t) d o)
              es h.1))

module _ (same : NetworkIdentity → NetworkIdentity → Bool) (u : Uuids) (f : Floats)
    (self : NetworkIdentity) (servers : ℕ → List NetworkIdentity) where
  abbrev pub run : Claims → ℤ → ℕ → Tracker → Plan
  run claims delay now t = plan_and_send_all same u f self claims servers delay now t

  pub run-none :
      (claims : Claims) (delay : ℤ) (now : ℕ) (t : Tracker)
      → find_bounds same self claims ≡ none
      → run claims delay now t ≡ nothing t
  unfolding plan_and_send_all
  run-none [] delay now t h = refl
  run-none (c ∷ cs) delay now t h =
      ap
        (λ o. elim o [
          | none ↦ nothing t
          | some own ↦
              plan_each same u f self (c ∷ cs) servers own (transfer_time delay now)
                (get_owned_entity_snapshots t) 0 t
        ])
        h

  pub run-some :
      (claims : Claims) (delay : ℤ) (now : ℕ) (t : Tracker) (own : GridShape)
      → find_bounds same self claims ≡ some own
      → run claims delay now t
        ≡ plan_each same u f self claims servers own
            (transfer_time delay now)
            (get_owned_entity_snapshots t)
            0
            t
  unfolding plan_and_send_all find_bounds
  run-some [] delay now t own h = absurd (some-ne-none (sym h))
  run-some (c ∷ cs) delay now t own h =
      ap
        (λ o. elim o [
          | none ↦ nothing t
          | some own ↦
              plan_each same u f self (c ∷ cs) servers own (transfer_time delay now)
                (get_owned_entity_snapshots t) 0 t
        ])
        h

  -- Where the comparison of identities is reflexive and the claimed bounds and the registry's answers
  -- are the same throughout, a second run of `PlanAndSendAll` behind a first one, whatever the times
  -- and delays, plans no handoff, sends nothing and tells the transfer manifest nothing.
  pub plan_and_send_all_again :
      (claims : Claims) (delay delay' : ℤ) (now now' : ℕ) (t : Tracker)
      → ((a : NetworkIdentity) → same a a ≡ true)
      → ((n : ℕ) → servers n ≡ servers 0)
      → ((run claims delay' now' (run claims delay now t).tracker).outgoing ≡ [])
        × ((run claims delay' now' (run claims delay now t).tracker).calls ≡ [])
  plan_and_send_all_again claims delay delay' now now' t r steady =
      elim (Option-cases (find_bounds same self claims)) [
        | inl lost ↦
            subst (λ p. (p.outgoing ≡ []) × (p.calls ≡ []))
              (sym (run-none claims delay' now' (run claims delay now t).tracker lost)) (refl, refl)
        | inr (own, is) ↦
            subst
              (λ p.
                ((run claims delay' now' p.tracker).outgoing ≡ [])
                × ((run claims delay' now' p.tracker).calls ≡ []))
              (sym (run-some claims delay now t own is)) (second own is)
      ]
    where
      second :
          (own : GridShape)
          → find_bounds same self claims ≡ some own
          → let es = get_owned_entity_snapshots t in
            let s =
              (planned same u f self claims servers own (transfer_time delay now) es 0 t).tracker in
            ((run claims delay' now' s).outgoing ≡ []) × ((run claims delay' now' s).calls ≡ [])
      second own is =
          let es = get_owned_entity_snapshots t in
          let time = transfer_time delay now in
          let s = (planned same u f self claims servers own time es 0 t).tracker in
          subst (λ p. (p.outgoing ≡ []) × (p.calls ≡ []))
            (sym (run-some claims delay' now' s own is))
            (planned_of_Settled same u f self claims servers own r steady
              (transfer_time delay' now') (get_owned_entity_snapshots s) 0 s
              (subst (All (IsSettled same u f self claims servers own s))
                (sym (planned-snapshots same u f self claims servers own time es 0 t))
                (planned-Settled same u f self claims servers own r steady time es 0 t)))
