-- ===== src/Handoff/Presence.antt =====
-- Which entities a tracker has, after each of the calls that `SH_ServerAuthorityRuntime::Tick` makes of it.
use atlas_net.Prelude.{
  ℕ, ◌≡◌, refl, sym, ap, ◌∙◌, ◌⊎◌, inl, inr, Bool, true, false, not, ◌&&◌, ◌||◌, List, [], ◌∷◌, map,
  some, if◌then◌else◌, Bool-cases, Option-cases, arith, is_some, is_some-if, is_some-unless,
}
use atlas_net.Entity.Full.{AtlasEntity}
use atlas_net.Network.Identity.{NetworkIdentity}
use atlas_net.Ledger.Uuids.{Uuid, Uuids}
use atlas_net.Ledger.State.{id_of}
use atlas_net.Heuristic.Floats.{Floats}
use atlas_net.Heuristic.Grid.{GridShape}
use atlas_net.Handoff.Maps.{
  Map, lookup, assign, modify, erase_all, listed, same-eq, lookup-erase_all, true-ne-false,
}
use atlas_net.Handoff.Marks.{mark_passing_keeps}
use atlas_net.Handoff.Tracker.{
  Tracker, AuthorityEntry, get_owned_entity_snapshots, pass, mark_authoritative, set_owned,
  set_owned_each, to_remove, set_owned_entities,
}
use atlas_net.Handoff.Planner.{
  Claims, ℤ, Round, find_bounds, transfer_time, plan_each, plan_and_send_all,
}
use atlas_net.Handoff.Rounds.{Outcome, passes, at_home, nowhere, leaves, round-Outcome}
use atlas_net.Handoff.Planning.{planned, first, planned-tracker, run-none, run-some}

module _ (u : Uuids) where
  module _ {ℓ} {V : Type ℓ} where
    abbrev pub has : Uuid → Map V → Bool
    has k m = is_some (lookup u k m)

    has-cons : (k : Uuid) (x : Uuid × V) (xs : Map V) → has k (x ∷ xs) ≡ (u.same x.0 k || has k xs)
    has-cons k x xs = is_some-if (u.same x.0 k) x.1 (lookup u k xs)

    pub has-modify : (k id : Uuid) (g : V → V) (m : Map V) → has k (modify u id g m) ≡ has k m
    has-modify k id g [] = refl
    has-modify k id g (x ∷ xs) = elim (Bool-cases (u.same x.0 id)) [
      | inl is ↦ rw is (has-cons k (x.0, g x.1) xs ∙ sym (has-cons k x xs))
      | inr apart ↦ rw apart (
          has-cons k x (modify u id g xs)
          ∙ ap (λ b. u.same x.0 k || b) (has-modify k id g xs)
          ∙ sym (has-cons k x xs))
    ]

    has-assign :
        (k id : Uuid) (v : V) (m : Map V) → has k (assign u id v m) ≡ (u.same id k || has k m)
    has-assign k id v [] = has-cons k (id, v) []
    has-assign k id v (x ∷ xs) = elim (Bool-cases (u.same x.0 id)) [
      | inl is ↦ rw is (
          has-cons k (x.0, v) xs
          ∙ twice (u.same x.0 k) (has k xs)
          ∙ ap (λ b. b || (u.same x.0 k || has k xs)) (ap (λ y. u.same y k) (same-eq u x.0 id is))
          ∙ ap (λ b. u.same id k || b) (sym (has-cons k x xs)))
      | inr apart ↦ rw apart (
          has-cons k x (assign u id v xs)
          ∙ ap (λ b. u.same x.0 k || b) (has-assign k id v xs)
          ∙ swapped (u.same x.0 k) (u.same id k) (has k xs)
          ∙ ap (λ b. u.same id k || b) (sym (has-cons k x xs)))
    ]
      where
        twice : (a b : Bool) → (a || b) ≡ (a || (a || b))
        twice a b = ground arith

        swapped : (a b c : Bool) → (a || (b || c)) ≡ (b || (a || c))
        swapped a b c = ground arith

    has-erase_all :
        (k : Uuid) (ids : List Uuid) (m : Map V)
        → has k (erase_all u ids m) ≡ (not (listed u k ids) && has k m)
    has-erase_all k ids m =
        ap is_some (lookup-erase_all u k ids m) ∙ is_some-unless (listed u k ids) (lookup u k m)

  has-set_owned :
      (k : Uuid) (e : AtlasEntity) (t : Tracker)
      → has k (set_owned u e t) ≡ (u.same (id_of e) k || has k t)
  unfolding set_owned
  has-set_owned k e t = elim (Option-cases (lookup u (id_of e) t)) [
    | inl gone ↦ rw (set_owned, gone) (has-assign k (id_of e) _ t)
    | inr (x, is) ↦
        rw (set_owned, is)
          (has-modify k (id_of e) _ t ∙ there (Bool-cases (u.same (id_of e) k)) x is)
  ]
    where
      there :
          ((u.same (id_of e) k ≡ true) ⊎ (u.same (id_of e) k ≡ false))
          → (x : AuthorityEntry) → lookup u (id_of e) t ≡ some x
          → has k t ≡ (u.same (id_of e) k || has k t)
      there (inr apart) x is = rw apart refl
      there (inl same) x is =
          rw same (ap (λ y. has y t) (sym (same-eq u (id_of e) k same)) ∙ ap is_some is)

  has-set_owned_each :
      (k : Uuid) (es : List AtlasEntity) (t : Tracker)
      → has k (set_owned_each u es t) ≡ (listed u k (map id_of es) || has k t)
  unfolding set_owned_each
  has-set_owned_each k [] t = refl
  has-set_owned_each k (e ∷ es) t =
      has-set_owned_each k es (set_owned u e t)
      ∙ ap (λ b. listed u k (map id_of es) || b) (has-set_owned k e t)
      ∙ moved (listed u k (map id_of es)) (u.same (id_of e) k) (has k t)
    where
      moved : (a b c : Bool) → (a || (b || c)) ≡ ((b || a) || c)
      moved a b c = ground arith

  listed-to_remove :
      (k : Uuid) (keep : List Uuid) (t : Tracker)
      → listed u k (to_remove u keep t) ≡ (not (listed u k keep) && has k t)
  unfolding to_remove
  listed-to_remove k keep [] = ground arith
  listed-to_remove k keep (x ∷ xs) =
      listed-if (listed u x.0 keep)
      ∙ ap (λ b. if listed u x.0 keep then b else (u.same x.0 k || b)) (listed-to_remove k keep xs)
      ∙ either (u.same x.0 k) (listed u x.0 keep) (listed u k keep) (has k xs)
          (λ is. ap (λ y. listed u y keep) (same-eq u x.0 k is))
      ∙ ap (λ b. not (listed u k keep) && b) (sym (has-cons k x xs))
    where
      listed-if :
          (b : Bool)
          → listed u k (if b then to_remove u keep xs else x.0 ∷ to_remove u keep xs) ≡ (
              if b
              then listed u k (to_remove u keep xs)
              else (u.same x.0 k || listed u k (to_remove u keep xs)))
      listed-if true = refl
      listed-if false = refl

      either :
          (same kept also_kept h : Bool)
          → (same ≡ true → kept ≡ also_kept)
          → (if kept then not also_kept && h else (same || (not also_kept && h)))
            ≡ (not also_kept && (same || h))
      either false true m h e = refl
      either false false m h e = refl
      either true true true h e = refl
      either true true false h e = absurd (true-ne-false (e refl))
      either true false true h e = absurd (true-ne-false (sym (e refl)))
      either true false false h e = refl

  -- After `SetOwnedEntities` the tracker has exactly those entities.
  pub has-set_owned_entities :
      (k : Uuid) (es : List AtlasEntity) (t : Tracker)
      → has k (set_owned_entities u es t) ≡ listed u k (map id_of es)
  unfolding set_owned_entities
  has-set_owned_entities k es t =
      let t1 = set_owned_each u es t in
      has-erase_all k (to_remove u (map id_of es) t1) t1
      ∙ ap (λ b. not b && has k t1) (listed-to_remove k (map id_of es) t1)
      ∙ ap (λ b. not (not (listed u k (map id_of es)) && b) && b) (has-set_owned_each k es t)
      ∙ only (listed u k (map id_of es)) (has k t)
    where
      only : (a b : Bool) → (not (not a && (a || b)) && (a || b)) ≡ a
      only a b = ground arith

module _ (same : NetworkIdentity → NetworkIdentity → Bool) (u : Uuids) (f : Floats)
    (self : NetworkIdentity) (claims : Claims) (servers : ℕ → List NetworkIdentity) where
  has-outcome :
      (own : GridShape) (k : Uuid) (e : AtlasEntity) (n : ℕ) (t : Tracker) (r : Round)
      → Outcome same u f self claims servers own e n t r
      → has u k r.tracker ≡ has u k t
  unfolding mark_authoritative
  has-outcome own k e n t r (passes there) = refl
  has-outcome own k e n t r (at_home not_yet home) = has-modify u k (id_of e) _ t
  has-outcome own k e n t r (nowhere not_yet away none_is) = refl
  has-outcome own k e n t r (leaves to not_yet away is) =
      mark_passing_keeps u same (λ s. has u k s ≡ has u k t) (id_of e) to t refl
        (has-modify u k (id_of e) (pass to) t)

  has-planned :
      (own : GridShape) (k : Uuid) (time : ℕ) (es : List AtlasEntity) (n : ℕ) (t : Tracker)
      → has u k (planned same u f self claims servers own time es n t).tracker ≡ has u k t
  unfolding plan_each
  has-planned own k time [] n t = refl
  has-planned own k time (e ∷ es) n t =
      let r = first same u f self claims servers own e n t in
      ap (has u k) (planned-tracker same u f self claims servers own time e es n t)
      ∙ has-planned own k time es r.asked r.tracker
      ∙ has-outcome own k e n t r (round-Outcome same u f self claims servers own e n t)

  -- `PlanAndSendAll` marks entities and forgets none.
  pub has-plan_and_send_all :
      (k : Uuid) (delay : ℤ) (now : ℕ) (t : Tracker)
      → has u k (plan_and_send_all same u f self claims servers delay now t).tracker ≡ has u k t
  has-plan_and_send_all k delay now t = elim (Option-cases (find_bounds same self claims)) [
    | inl gone ↦
        ap (λ p. has u k p.tracker) (run-none same u f self servers claims delay now t gone)
    | inr (own, is) ↦
        ap (λ p. has u k p.tracker) (run-some same u f self servers claims delay now t own is)
        ∙ has-planned own k (transfer_time delay now) (get_owned_entity_snapshots t) 0 t
  ]
