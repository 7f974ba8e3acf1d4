-- ===== src/Handoff/Commit.antt =====
-- What `SH_TransferMailbox::CommitOutgoingIfDue` does to the pending handoffs, to the tracker and to
-- the simulator, entity by entity.
use atlas_net.Prelude.{
  ℕ, ◌≡◌, refl, ap, ◌∙◌, inl, inr, ltb, Bool, true, false, not, ◌||◌, ◌&&◌, arith, List, [], ◌∷◌,
  ◌++◌, Option, some, none, if◌then◌else◌, Bool-cases,
}
use mathlib.Core.Path.{subst}
use atlas_net.Network.Identity.{NetworkIdentity}
use atlas_net.Ledger.Uuids.{Uuid, Uuids}
use atlas_net.Handoff.Maps.{
  Map, lookup, listed, erase_all, Fresh, Distinct, same_self, same-eq, lookup-erase_self,
  lookup-erase_other, lookup-erase_all,
}
use atlas_net.Handoff.Marks.{passing_by_entry}
use atlas_net.Handoff.Tracker.{Tracker, is_passing_to, remove_entity}
use atlas_net.Handoff.Keys.{Reach, Reach-Distinct}
use atlas_net.Handoff.Mailbox.{
  PendingIncomingHandoff, PendingOutgoingHandoff, TransferMailbox, Call, simulator_remove_entity,
  publish_from_tracker, adopt_single_entity, mark_incoming_adopted, mark_outgoing_committed,
  mark_transfer_canceled, Committed, has_pending_outgoing, is_filled, commit_each, published,
  commit_outgoing_if_due,
}

-- The handoff's time has come.
abbrev pub is_due : ℕ → PendingOutgoingHandoff → Bool
is_due now h = not (ltb now h.transfer_time_us)

abbrev pub overdue : ℕ → Option PendingOutgoingHandoff → Bool
overdue now o = elim o [ none ↦ false | some h ↦ is_due now h ]

module _ (u : Uuids) (same : NetworkIdentity → NetworkIdentity → Bool) (now : ℕ) where
  -- The entity has a handoff that is due, and still passes to its target.
  abbrev pub goes : Uuid → Tracker → PendingOutgoingHandoff → Bool
  goes id t h =
      if ltb now h.transfer_time_us then false else is_passing_to u same id h.target_identity t

  abbrev pub hands_over : Uuid → Tracker → Option PendingOutgoingHandoff → Bool
  hands_over id t o = elim o [ none ↦ false | some h ↦ goes id t h ]

-- The simulator is told to remove the entity.
abbrev pub removes : Uuids → Uuid → List Call → Bool
removes u id [] = false
removes u id (simulator_remove_entity k ∷ cs) = u.same k id || removes u id cs
removes u id (adopt_single_entity e ∷ cs) = removes u id cs
removes u id (mark_incoming_adopted k a b n ∷ cs) = removes u id cs
removes u id (mark_outgoing_committed k a b ∷ cs) = removes u id cs
removes u id (mark_transfer_canceled k ∷ cs) = removes u id cs
removes u id (publish_from_tracker t ∷ cs) = removes u id cs

own_test : (a b c : Bool) → a ≡ true → c ≡ false → (if a && b then true else c) ≡ b
own_test a b c h k = ground arith

other_test : (a b c : Bool) → a ≡ false → (if a && b then true else c) ≡ c
other_test a b c h = ground arith

module _ (u : Uuids) (same : NetworkIdentity → NetworkIdentity → Bool) (self : NetworkIdentity)
    (now : ℕ) where
  abbrev Pending : Type 0
  Pending = Uuid × PendingOutgoingHandoff

  -- The tracker behind one round of the loop.
  abbrev next : Pending → Tracker → Tracker
  next x t = if goes u same now x.0 t x.1 then remove_entity u x.0 t else t

  abbrev looped : Map PendingOutgoingHandoff → Tracker → Committed
  looped xs t = commit_each u same self now xs t

  looped-tracker :
      (x : Pending) (xs : Map PendingOutgoingHandoff) (t : Tracker)
      → (looped (x ∷ xs) t).tracker ≡ (looped xs (next x t)).tracker
  unfolding commit_each
  looped-tracker x xs t = ground arith

  -- Which lists and calls the round adds to.
  looped-ids :
      (x : Pending) (xs : Map PendingOutgoingHandoff) (t : Tracker) (id : Uuid)
      → (listed u id (looped (x ∷ xs) t).committed || listed u id (looped (x ∷ xs) t).canceled) ≡ (
          if u.same x.0 id && is_due now x.1
          then true
          else listed u id (looped xs (next x t)).committed
            || listed u id (looped xs (next x t)).canceled)
  unfolding commit_each
  looped-ids x xs t id = ground arith

  looped-removes :
      (x : Pending) (xs : Map PendingOutgoingHandoff) (t : Tracker) (id : Uuid)
      → removes u id (looped (x ∷ xs) t).calls ≡ (
          if u.same x.0 id && goes u same now x.0 t x.1
          then true
          else removes u id (looped xs (next x t)).calls)
  unfolding commit_each
  looped-removes x xs t id = ground arith

  next_other :
      (x : Pending) (t : Tracker) (id : Uuid)
      → u.same x.0 id ≡ false
      → lookup u id (next x t) ≡ lookup u id t
  unfolding remove_entity
  next_other x t id h = elim (Bool-cases (goes u same now x.0 t x.1)) [
    | inl it ↦ rw it (lookup-erase_other u x.0 id t h)
    | inr not_it ↦ rw not_it refl
  ]

  next_self :
      (x : Pending) (t : Tracker)
      → lookup u x.0 (next x t) ≡ (if goes u same now x.0 t x.1 then none else lookup u x.0 t)
  unfolding remove_entity
  next_self x t = elim (Bool-cases (goes u same now x.0 t x.1)) [
    | inl it ↦ rw it (lookup-erase_self u x.0 t)
    | inr not_it ↦ rw not_it refl
  ]

  -- An entity without a pending handoff is left alone.
  Fresh-ids :
      (xs : Map PendingOutgoingHandoff) (t : Tracker) (id : Uuid)
      → Fresh u id xs
      → (listed u id (looped xs t).committed || listed u id (looped xs t).canceled) ≡ false
  unfolding commit_each
  Fresh-ids [] t id h = refl
  Fresh-ids (x ∷ xs) t id h =
      looped-ids x xs t id
      ∙ ap
          (λ b.
            if b && is_due now x.1
            then true
            else listed u id (looped xs (next x t)).committed
              || listed u id (looped xs (next x t)).canceled)
          h.0
      ∙ Fresh-ids xs (next x t) id h.1

  Fresh-removes :
      (xs : Map PendingOutgoingHandoff) (t : Tracker) (id : Uuid)
      → Fresh u id xs
      → removes u id (looped xs t).calls ≡ false
  unfolding commit_each
  Fresh-removes [] t id h = refl
  Fresh-removes (x ∷ xs) t id h =
      looped-removes x xs t id
      ∙ ap
          (λ b.
            if b && goes u same now x.0 t x.1
            then true
            else removes u id (looped xs (next x t)).calls)
          h.0
      ∙ Fresh-removes xs (next x t) id h.1

  Fresh-tracker :
      (xs : Map PendingOutgoingHandoff) (t : Tracker) (id : Uuid)
      → Fresh u id xs
      → lookup u id (looped xs t).tracker ≡ lookup u id t
  unfolding commit_each
  Fresh-tracker [] t id h = refl
  Fresh-tracker (x ∷ xs) t id h =
      ap (lookup u id) (looped-tracker x xs t)
      ∙ Fresh-tracker xs (next x t) id h.1
      ∙ next_other x t id h.0

  -- The three effects on one entity, where no entity has two pending handoffs.
  abbrev Effects : Map PendingOutgoingHandoff → Tracker → Uuid → Type 0
  Effects xs t id =
      ((listed u id (looped xs t).committed || listed u id (looped xs t).canceled)
        ≡ overdue now (lookup u id xs))
      × (removes u id (looped xs t).calls ≡ hands_over u same now id t (lookup u id xs))
      × (lookup u id (looped xs t).tracker
          ≡ (if hands_over u same now id t (lookup u id xs) then none else lookup u id t))

  hands_over_by_entry :
      (s t : Tracker) (id : Uuid) (o : Option PendingOutgoingHandoff)
      → lookup u id s ≡ lookup u id t
      → hands_over u same now id s o ≡ hands_over u same now id t o
  hands_over_by_entry s t id none h = refl
  hands_over_by_entry s t id (some x) h =
      ap (λ b. if ltb now x.transfer_time_us then false else b)
        (passing_by_entry u same id x.target_identity s t h)

  Effects-nil : (t : Tracker) (id : Uuid) → Effects [] t id
  unfolding commit_each
  Effects-nil t id = (refl, refl, refl)

  Effects-self :
      (x : Pending) (xs : Map PendingOutgoingHandoff) (t : Tracker)
      → Fresh u x.0 xs
      → Effects (x ∷ xs) t x.0
  Effects-self x xs t f =
      let is = same_self u x.0 in
      rw is (
        looped-ids x xs t x.0 ∙ own_test _ _ _ is (Fresh-ids xs (next x t) x.0 f),
        looped-removes x xs t x.0 ∙ own_test _ _ _ is (Fresh-removes xs (next x t) x.0 f),
        ap (lookup u x.0) (looped-tracker x xs t)
            ∙ Fresh-tracker xs (next x t) x.0 f
            ∙ next_self x t,
      )

  Effects-other :
      (x : Pending) (xs : Map PendingOutgoingHandoff) (t : Tracker) (id : Uuid)
      → u.same x.0 id ≡ false
      → Effects xs (next x t) id
      → Effects (x ∷ xs) t id
  Effects-other x xs t id apart (ids, rem, tracked) =
      let kept = next_other x t id apart in
      let o = lookup u id xs in
      let same_fate = hands_over_by_entry (next x t) t id o kept in
      rw apart (
        looped-ids x xs t id ∙ other_test _ _ _ apart ∙ ids,
        looped-removes x xs t id ∙ other_test _ _ _ apart ∙ rem ∙ same_fate,
        ap (lookup u id) (looped-tracker x xs t)
            ∙ tracked
            ∙ ap (λ b. if b then none else lookup u id (next x t)) same_fate
            ∙ ap (λ e. if hands_over u same now id t o then none else e) kept,
      )

  looped-Effects :
      (xs : Map PendingOutgoingHandoff) (t : Tracker) (id : Uuid) → Distinct u xs → Effects xs t id
  looped-Effects [] t id d = Effects-nil t id
  looped-Effects (x ∷ xs) t id d = elim (Bool-cases (u.same x.0 id)) [
    | inl is ↦ subst (Effects (x ∷ xs) t) (same-eq u x.0 id is) (Effects-self x xs t d.0)
    | inr apart ↦ Effects-other x xs t id apart (looped-Effects xs (next x t) id d.1)
  ]

  removes-publish :
      (id : Uuid) (cs : List Call) (t : Tracker)
      → removes u id (cs ++ publish_from_tracker t ∷ []) ≡ removes u id cs
  removes-publish id [] t = refl
  removes-publish id (simulator_remove_entity k ∷ cs) t =
      ap (λ b. u.same k id || b) (removes-publish id cs t)
  removes-publish id (adopt_single_entity e ∷ cs) t = removes-publish id cs t
  removes-publish id (mark_incoming_adopted k a b n ∷ cs) t = removes-publish id cs t
  removes-publish id (mark_outgoing_committed k a b ∷ cs) t = removes-publish id cs t
  removes-publish id (mark_transfer_canceled k ∷ cs) t = removes-publish id cs t
  removes-publish id (publish_from_tracker s ∷ cs) t = removes-publish id cs t

  removes-published :
      (id : Uuid) (c : Committed) → removes u id (published c) ≡ removes u id c.calls
  unfolding published
  removes-published id c = elim (Bool-cases (is_filled c.committed)) [
    | inl it ↦ rw it (removes-publish id c.calls c.tracker)
    | inr not_it ↦ rw not_it refl
  ]

  erased :
      (id : Uuid) (a b : List Uuid) (m : Map PendingOutgoingHandoff)
      → lookup u id (erase_all u b (erase_all u a m))
        ≡ (if listed u id a || listed u id b then none else lookup u id m)
  erased id a b m =
      lookup-erase_all u id b (erase_all u a m)
      ∙ ap (λ o. if listed u id b then none else o) (lookup-erase_all u id a m)
      ∙ ground arith

  -- What is to be shown of the handoffs `out` and the incoming ones.
  abbrev Done : Map PendingIncomingHandoff → Map PendingOutgoingHandoff → Tracker → Uuid → Type 0
  Done i out t id =
      let (_, calls, after, box) =
        commit_outgoing_if_due u same self now t (record { incoming = i; outgoing = out }) in
      let o = lookup u id out in
      (lookup u id box.outgoing ≡ (if overdue now o then none else o))
      × (lookup u id after ≡ (if hands_over u same now id t o then none else lookup u id t))
      × (removes u id calls ≡ hands_over u same now id t o)
      × (box.incoming ≡ i)

  Done-all :
      (i : Map PendingIncomingHandoff) (out : Map PendingOutgoingHandoff) (t : Tracker) (id : Uuid)
      → Distinct u out
      → Done i out t id
  unfolding commit_outgoing_if_due has_pending_outgoing
  Done-all i [] t id d = (refl, refl, refl, refl)
  Done-all i (x ∷ xs) t id d =
      let (ids, rem, tracked) = looped-Effects (x ∷ xs) t id d in
      (
        erased id (looped (x ∷ xs) t).committed (looped (x ∷ xs) t).canceled (x ∷ xs)
            ∙ ap (λ b. if b then none else lookup u id (x ∷ xs)) ids,
        tracked,
        removes-published id (looped (x ∷ xs) t) ∙ rem,
        refl,
      )

  -- Whatever has been called on the mailbox before, `CommitOutgoingIfDue` does this for each entity: its
  -- pending handoff is gone when its time has come and is left otherwise; the tracker forgets the
  -- entity, and the simulator is told to remove it, exactly when the handoff's time has come and the
  -- tracker still has the entity passing to the handoff's target; incoming handoffs are left alone.
  pub commit_outgoing_if_due_lem :
      (m : TransferMailbox) (t : Tracker) (id : Uuid)
      → Reach u same m
      → let (_, calls, after, box) = commit_outgoing_if_due u same self now t m in
        let o = lookup u id m.outgoing in
        (lookup u id box.outgoing ≡ (if overdue now o then none else o))
        × (lookup u id after ≡ (if hands_over u same now id t o then none else lookup u id t))
        × (removes u id calls ≡ hands_over u same now id t o)
        × (box.incoming ≡ m.incoming)
  commit_outgoing_if_due_lem m t id r =
      Done-all m.incoming m.outgoing t id (Reach-Distinct u same m r).1
