-- ===== src/Handoff/Rounds.antt =====
-- The cases of one round of `SH_BorderHandoffPlanner::PlanAndSendAll`, and what each leaves of the
-- tracker.
use atlas_net.Prelude.{
  ℕ, ◌+◌, ◌≡◌, refl, sym, ap, ◌∙◌, ◌⊎◌, inl, inr, Bool, true, false, List, Option, some, none,
  if◌then◌else◌, Bool-cases, Option-cases,
}
use atlas_net.Entity.Full.{AtlasEntity}
use atlas_net.Network.Identity.{NetworkIdentity}
use atlas_net.Ledger.Uuids.{Uuid, Uuids}
use atlas_net.Ledger.State.{id_of}
use atlas_net.Heuristic.Floats.{Floats}
use atlas_net.Heuristic.Geometry.{contains}
use atlas_net.Heuristic.Grid.{GridShape}
use atlas_net.Handoff.Maps.{lookup, same-eq, lookup-modify_other, true-ne-false}
use atlas_net.Handoff.Tracker.{
  Tracker, get_owned_entity_snapshots, is_passing, pass, mark_authoritative, mark_passing,
}
use atlas_net.Handoff.Marks.{
  is_passing_by_entry, modify-snapshots, lookup-modify-none, mark_passing_keeps, mark_passing_after,
}
use atlas_net.Handoff.Planner.{Claims, Round, destination, round}

module _ (same : NetworkIdentity → NetworkIdentity → Bool) (u : Uuids) (f : Floats)
    (self : NetworkIdentity) (claims : Claims) (servers : ℕ → List NetworkIdentity)
    (own : GridShape) where
  abbrev pub goal : AtlasEntity → ℕ → Option NetworkIdentity
  goal e n = destination same f self claims (servers n) e.base.transform.position

  abbrev pub is_home : AtlasEntity → Bool
  is_home e = contains f own.aabb e.base.transform.position

  pub data Outcome (e : AtlasEntity) (n : ℕ) (t : Tracker) : Round → Type 0 where
    passes :
        is_passing u (id_of e) t ≡ true
        → Outcome e n t (record { target = none; asked = n; tracker = t })
    at_home :
        is_passing u (id_of e) t ≡ false
        → is_home e ≡ true
        → Outcome e n t
            (record { target = none; asked = n; tracker = mark_authoritative u (id_of e) t })
    nowhere :
        is_passing u (id_of e) t ≡ false
        → is_home e ≡ false
        → goal e n ≡ none
        → Outcome e n t (record { target = none; asked = n + 1; tracker = t })
    leaves :
        (to : NetworkIdentity)
        → is_passing u (id_of e) t ≡ false
        → is_home e ≡ false
        → goal e n ≡ some to
        → Outcome e n t (record {
          target = if (mark_passing u same (id_of e) to t).0 then some to else none;
          asked = n + 1;
          tracker = (mark_passing u same (id_of e) to t).1;
        })

  abbrev pub rounded : AtlasEntity → ℕ → Tracker → Round
  rounded e n t = round same u f self claims servers own e n t

  pub round-Outcome : (e : AtlasEntity) (n : ℕ) (t : Tracker) → Outcome e n t (rounded e n t)
  unfolding round
  round-Outcome e n t = elim (Bool-cases (is_passing u (id_of e) t)) [
    | inl there ↦ rw (round, there) (passes there)
    | inr not_yet ↦ elim (Bool-cases (is_home e)) [
      | inl home ↦ rw (round, not_yet, home) (at_home not_yet home)
      | inr away ↦ elim (Option-cases (goal e n)) [
        | inl none_is ↦ rw (round, not_yet, away, none_is) (nowhere not_yet away none_is)
        | inr (to, is) ↦ rw (round, not_yet, away, is) (leaves to not_yet away is)
      ]
    ]
  ]

  -- An entity that passes is another one than an entity that does not.
  apart_from :
      (k id : Uuid) (t : Tracker)
      → is_passing u k t ≡ false
      → is_passing u id t ≡ true
      → u.same k id ≡ false
  apart_from k id t h j = elim (Bool-cases (u.same k id)) [
    | inr apart ↦ apart
    | inl is ↦
        absurd (true-ne-false (sym j ∙ ap (λ y. is_passing u y t) (sym (same-eq u k id is)) ∙ h))
  ]

  -- A round leaves the entry of an entity that passes.
  pub outcome_keeps :
      (e : AtlasEntity) (n : ℕ) (t : Tracker) (r : Round) (id : Uuid)
      → Outcome e n t r
      → is_passing u id t ≡ true
      → lookup u id r.tracker ≡ lookup u id t
  unfolding mark_authoritative
  outcome_keeps e n t r id (passes there) h = refl
  outcome_keeps e n t r id (at_home not_yet home) h =
      lookup-modify_other u (id_of e) id _ t (apart_from (id_of e) id t not_yet h)
  outcome_keeps e n t r id (nowhere not_yet away none_is) h = refl
  outcome_keeps e n t r id (leaves to not_yet away is) h =
      mark_passing_keeps u same (λ s. lookup u id s ≡ lookup u id t) (id_of e) to t refl
        (lookup-modify_other u (id_of e) id (pass to) t (apart_from (id_of e) id t not_yet h))

  outcome_keeps_none :
      (e : AtlasEntity) (n : ℕ) (t : Tracker) (r : Round) (id : Uuid)
      → Outcome e n t r
      → lookup u id t ≡ none
      → lookup u id r.tracker ≡ none
  unfolding mark_authoritative
  outcome_keeps_none e n t r id (passes there) h = h
  outcome_keeps_none e n t r id (at_home not_yet home) h = lookup-modify-none u id (id_of e) _ t h
  outcome_keeps_none e n t r id (nowhere not_yet away none_is) h = h
  outcome_keeps_none e n t r id (leaves to not_yet away is) h =
      mark_passing_keeps u same (λ s. lookup u id s ≡ none) (id_of e) to t h
        (lookup-modify-none u id (id_of e) (pass to) t h)

  pub outcome-snapshots :
      (e : AtlasEntity) (n : ℕ) (t : Tracker) (r : Round)
      → Outcome e n t r
      → get_owned_entity_snapshots r.tracker ≡ get_owned_entity_snapshots t
  unfolding mark_authoritative pass
  outcome-snapshots e n t r (passes there) = refl
  outcome-snapshots e n t r (at_home not_yet home) = modify-snapshots u (id_of e) _ t (λ x. refl)
  outcome-snapshots e n t r (nowhere not_yet away none_is) = refl
  outcome-snapshots e n t r (leaves to not_yet away is) =
      mark_passing_keeps u same (λ s. get_owned_entity_snapshots s ≡ get_owned_entity_snapshots t)
        (id_of e) to t refl (modify-snapshots u (id_of e) (pass to) t (λ x. refl))

  -- There is nothing to plan for the entity, whatever the number of the question.
  abbrev pub IsSettled : Tracker → AtlasEntity → Type 0
  IsSettled t e =
      ((is_passing u (id_of e) t ≡ true) ⊎ (lookup u (id_of e) t ≡ none))
      ⊎ ((is_home e ≡ true) ⊎ (goal e 0 ≡ none))

  pub outcome_keeps-IsSettled :
      (e : AtlasEntity) (n : ℕ) (t : Tracker) (r : Round) (d : AtlasEntity)
      → Outcome e n t r
      → IsSettled t d
      → IsSettled r.tracker d
  outcome_keeps-IsSettled e n t r d o (inr static) = inr static
  outcome_keeps-IsSettled e n t r d o (inl (inr gone)) =
      inl (inr (outcome_keeps_none e n t r (id_of d) o gone))
  outcome_keeps-IsSettled e n t r d o (inl (inl there)) = inl (
      inl (
        is_passing_by_entry u (id_of d) r.tracker t (outcome_keeps e n t r (id_of d) o there)
        ∙ there))

  -- Behind its round there is nothing to plan for an entity, where the registry's answer is the same
  -- to every question.
  pub outcome-IsSettled :
      (e : AtlasEntity) (n : ℕ) (t : Tracker) (r : Round)
      → ((a : NetworkIdentity) → same a a ≡ true)
      → servers n ≡ servers 0
      → Outcome e n t r
      → IsSettled r.tracker e
  outcome-IsSettled e n t r refl' c (passes there) = inl (inl there)
  outcome-IsSettled e n t r refl' c (at_home not_yet home) = inr (inl home)
  outcome-IsSettled e n t r refl' c (nowhere not_yet away none_is) =
      inr (
        inr
          (ap (λ x. destination same f self claims x e.base.transform.position) (sym c) ∙ none_is))
  outcome-IsSettled e n t r refl' c (leaves to not_yet away is) =
      elim (mark_passing_after u same (id_of e) to t (refl' to)) [
        | inl gone ↦ inl (inr gone)
        | inr there ↦ inl (inl there)
      ]
