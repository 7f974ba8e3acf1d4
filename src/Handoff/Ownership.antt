-- ===== src/Handoff/Ownership.antt =====
-- What the tracker and the simulator have after a tick of `SH_ServerAuthorityRuntime`.
use atlas_net.Prelude.{
  ℕ, ◌≡◌, refl, sym, ap, ◌∙◌, inl, inr, Bool, true, false, not, ◌&&◌, ◌||◌, ltb, List, [], ◌∷◌,
  ◌++◌, map, Bool-cases, arith, is_some, is_some-unless,
}
use mathlib.Core.Path.{subst}
use atlas_net.Network.Identity.{NetworkIdentity}
use atlas_net.Ledger.Uuids.{Uuid, Uuids}
use atlas_net.Ledger.State.{id_of}
use atlas_net.Heuristic.Floats.{Floats}
use atlas_net.Handoff.Maps.{Map, lookup, listed}
use atlas_net.Handoff.Database.{Database, Text}
use atlas_net.Handoff.Tracker.{Tracker, is_passing_to, set_owned_entities}
use atlas_net.Handoff.Mailbox.{
  TransferMailbox, PendingOutgoingHandoff, Call, Committed, adopt_single_entity,
  simulator_remove_entity, mark_incoming_adopted, mark_outgoing_committed, mark_transfer_canceled,
  publish_from_tracker, commit_each, published, is_filled, commit_outgoing_if_due,
  has_pending_outgoing, add_pending_outgoing,
}
use atlas_net.Handoff.Keys.{Reach, adopted, added, committed}
use atlas_net.Handoff.Commit.{removes, hands_over, commit_outgoing_if_due_lem}
use atlas_net.Handoff.Planner.{Claims, ℤ, plan_and_send_all}
use atlas_net.Handoff.Presence.{has, has-set_owned_entities, has-plan_and_send_all}
use atlas_net.Handoff.Connections.{ConnectionManager}
use atlas_net.Handoff.Runtime.{Simulator, Runtime, run_call, run_calls, add_all, tick_parts, tick}

-- No entity is adopted by these calls.
abbrev adopts_none : List Call → Bool
adopts_none [] = true
adopts_none (adopt_single_entity e ∷ cs) = false
adopts_none (simulator_remove_entity id ∷ cs) = adopts_none cs
adopts_none (mark_incoming_adopted id a b n ∷ cs) = adopts_none cs
adopts_none (mark_outgoing_committed id a b ∷ cs) = adopts_none cs
adopts_none (mark_transfer_canceled id ∷ cs) = adopts_none cs
adopts_none (publish_from_tracker t ∷ cs) = adopts_none cs

adopts_none-append :
    (cs ds : List Call) → adopts_none (cs ++ ds) ≡ (adopts_none cs && adopts_none ds)
adopts_none-append [] ds = refl
adopts_none-append (adopt_single_entity e ∷ cs) ds = refl
adopts_none-append (simulator_remove_entity id ∷ cs) ds = adopts_none-append cs ds
adopts_none-append (mark_incoming_adopted id a b n ∷ cs) ds = adopts_none-append cs ds
adopts_none-append (mark_outgoing_committed id a b ∷ cs) ds = adopts_none-append cs ds
adopts_none-append (mark_transfer_canceled id ∷ cs) ds = adopts_none-append cs ds
adopts_none-append (publish_from_tracker t ∷ cs) ds = adopts_none-append cs ds

module _ (u : Uuids) (same : NetworkIdentity → NetworkIdentity → Bool) where
  commit_each-adopts :
      (self : NetworkIdentity) (now : ℕ) (m : Map PendingOutgoingHandoff) (t : Tracker)
      → adopts_none (commit_each u same self now m t).calls ≡ true
  unfolding commit_each
  commit_each-adopts self now [] t = refl
  commit_each-adopts self now (x ∷ xs) t = elim (Bool-cases (ltb now x.1.transfer_time_us)) [
    | inl early ↦ rw early (commit_each-adopts self now xs t)
    | inr due ↦ elim (Bool-cases (is_passing_to u same x.0 x.1.target_identity t)) [
      | inl going ↦ rw (due, going) (commit_each-adopts self now xs _)
      | inr not_going ↦ rw (due, not_going) (commit_each-adopts self now xs t)
    ]
  ]

  published-adopts : (c : Committed) → adopts_none c.calls ≡ true → adopts_none (published c) ≡ true
  unfolding published
  published-adopts c h = elim (Bool-cases (is_filled c.committed)) [
    | inl it ↦ rw it (adopts_none-append c.calls _ ∙ ap (λ b. b && true) h)
    | inr not_it ↦ rw not_it h
  ]

  commit-adopts :
      (self : NetworkIdentity) (now : ℕ) (t : Tracker) (m : TransferMailbox)
      → adopts_none (commit_outgoing_if_due u same self now t m).1 ≡ true
  unfolding commit_outgoing_if_due
  commit-adopts self now t m = elim (Bool-cases (has_pending_outgoing m)) [
    | inl it ↦ rw it (
        published-adopts (commit_each u same self now m.outgoing t)
          (commit_each-adopts self now m.outgoing t))
    | inr not_it ↦ rw not_it refl
  ]

  Reach-add_all :
      (sim : Simulator u) (hs : List PendingOutgoingHandoff) (m : TransferMailbox)
      → Reach u same m
      → Reach u same (add_all u sim same hs m)
  unfolding add_all
  Reach-add_all sim [] m h = h
  Reach-add_all sim (x ∷ xs) m h =
      Reach-add_all sim xs (add_pending_outgoing u same x m) (added x m h)

module _ (u : Uuids) (sim : Simulator u) where
  listed-run_calls :
      (cs : List Call) (k : Uuid) (s : sim.State)
      → adopts_none cs ≡ true
      → listed u k (map id_of (sim.entities (run_calls u sim cs s)))
        ≡ (not (removes u k cs) && listed u k (map id_of (sim.entities s)))
  unfolding run_calls run_call
  listed-run_calls [] k s h = refl
  listed-run_calls (adopt_single_entity e ∷ cs) k s h = absurd cc
  listed-run_calls (simulator_remove_entity id ∷ cs) k s h =
      listed-run_calls cs k (sim.remove id s) h
      ∙ ap (λ b. not (removes u k cs) && b) (sim.listed-remove id k s)
      ∙ joined (removes u k cs) (u.same id k) (listed u k (map id_of (sim.entities s)))
    where
      joined : (a b c : Bool) → (not a && (not b && c)) ≡ (not (b || a) && c)
      joined a b c = ground arith
  listed-run_calls (mark_incoming_adopted id a b n ∷ cs) k s h = listed-run_calls cs k s h
  listed-run_calls (mark_outgoing_committed id a b ∷ cs) k s h = listed-run_calls cs k s h
  listed-run_calls (mark_transfer_canceled id ∷ cs) k s h = listed-run_calls cs k s h
  listed-run_calls (publish_from_tracker t ∷ cs) k s h = listed-run_calls cs k s h

module _ (u : Uuids) (sim : Simulator u) (same : NetworkIdentity → NetworkIdentity → Bool)
    (text : Text → Text) (db : Database) (f : Floats) (delay : ℤ) where
  abbrev Agrees : Runtime u sim → Type 0
  Agrees r =
      ((k : Uuid) → has u k r.tracker ≡ listed u k (map id_of (sim.entities r.simulator)))
      × Reach u same r.mailbox

  -- The tracker takes the entities over, the planner marks them, and the mailbox commits.
  after_commit :
      (self : NetworkIdentity) (claims : Claims) (servers : ℕ → List NetworkIdentity) (unix_us : ℕ)
      (s : sim.State) (t : Tracker) (m : TransferMailbox) (k : Uuid)
      → Reach u same m
      → let plan =
          plan_and_send_all same u f self claims servers delay unix_us
            (set_owned_entities u (sim.entities s) t) in
        let c = commit_outgoing_if_due u same self unix_us plan.tracker m in
        has u k c.2 ≡ listed u k (map id_of (sim.entities (run_calls u sim c.1 s)))
  after_commit self claims servers unix_us s t m k h =
      let owned = set_owned_entities u (sim.entities s) t in
      let plan = plan_and_send_all same u f self claims servers delay unix_us owned in
      let c = commit_outgoing_if_due u same self unix_us plan.tracker m in
      let there = listed u k (map id_of (sim.entities s)) in
      let gone = hands_over u same unix_us k plan.tracker (lookup u k m.outgoing) in
      let (_, tracked, removed, _) =
        commit_outgoing_if_due_lem u same self unix_us m plan.tracker k h in
      ap is_some tracked
      ∙ is_some-unless gone (lookup u k plan.tracker)
      ∙ ap (λ b. not gone && b)
          (has-plan_and_send_all same u f self claims servers k delay unix_us owned
            ∙ has-set_owned_entities u k (sim.entities s) t)
      ∙ ap (λ b. not b && there) (sym removed)
      ∙ sym (listed-run_calls u sim c.1 k s (commit-adopts u same self unix_us plan.tracker m))

  parts-Agrees :
      (claims : Claims) (servers : ℕ → List NetworkIdentity) (registry : List NetworkIdentity)
      (reap_now now unix_us : ℕ) (r : Runtime u sim) (cm : ConnectionManager) (d : db.State)
      → Reach u same r.mailbox
      → Agrees
          (tick_parts u sim same text db f delay claims servers registry reap_now now unix_us r cm
            d).runtime
  unfolding tick_parts
  parts-Agrees claims servers registry reap_now now unix_us r cm d h =
      let box2 = Reach-add_all u same sim _ _ (adopted r.self_identity unix_us r.mailbox h) in
      (
        λ k. after_commit r.self_identity claims servers unix_us _ r.tracker _ k box2,
        committed r.self_identity unix_us _ _ box2,
      )

  tick_on :
      (claims : Claims) (servers : ℕ → List NetworkIdentity) (registry : List NetworkIdentity)
      (reap_now now unix_us : ℕ) (r : Runtime u sim) (cm : ConnectionManager) (d : db.State)
      → r.initialized ≡ true
      → tick u sim same text db f delay claims servers registry reap_now now unix_us r cm d
        ≡ tick_parts u sim same text db f delay claims servers registry reap_now now unix_us r cm d
  unfolding tick
  tick_on claims servers registry reap_now now unix_us r cm d on = rw (tick, on) refl

  -- Whatever has been called on the mailbox before, and whatever the arguments are: behind a tick of a
  -- runtime that is initialised, an entity is in the tracker exactly if it is in the simulator, and the
  -- mailbox is again one that such calls lead to.
  pub tick_lem :
      (claims : Claims) (servers : ℕ → List NetworkIdentity) (registry : List NetworkIdentity)
      (reap_now now unix_us : ℕ) (r : Runtime u sim) (cm : ConnectionManager) (d : db.State)
      → r.initialized ≡ true
      → Reach u same r.mailbox
      → let after =
          (tick u sim same text db f delay claims servers registry reap_now now unix_us r cm
            d).runtime in
        ((k : Uuid) → has u k after.tracker ≡ listed u k (map id_of (sim.entities after.simulator)))
        × Reach u same after.mailbox
  tick_lem claims servers registry reap_now now unix_us r cm d on h =
      subst (λ x. Agrees x.runtime)
        (sym (tick_on claims servers registry reap_now now unix_us r cm d on))
        (parts-Agrees claims servers registry reap_now now unix_us r cm d h)
