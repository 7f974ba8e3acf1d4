-- ===== src/Handoff/Marks.antt =====
-- Lemmas on the marks of `SH_EntityAuthorityTracker`.
use atlas_net.Prelude.{
  ◌≡◌, ◌≢◌, refl, sym, ap, ◌∙◌, ◌⊎◌, inl, inr, Bool, true, false, ◌&&◌, [], ◌∷◌, map, some, none,
  if◌then◌else◌, Bool-cases, Option-cases, arith,
}
use mathlib.Core.Path.{subst}
use atlas_net.Network.Identity.{NetworkIdentity}
use atlas_net.Ledger.Uuids.{Uuid, Uuids}
use atlas_net.Handoff.Maps.{
  lookup, modify, same-eq, lookup-modify_self, lookup-modify_other, true-ne-false,
}
use atlas_net.Handoff.Tracker.{
  AuthorityEntry, Tracker, get_owned_entity_snapshots, is_passing, is_passing_state, is_passing_to,
  passes_to, pass, mark_passing,
}

pub some-ne-none {ℓ} : {A : Type ℓ} {x : A} → some x ≢ none
some-ne-none e = cc

module _ (u : Uuids) where
  pub is_passing_by_entry :
      (id : Uuid) (s t : Tracker)
      → lookup u id s ≡ lookup u id t
      → is_passing u id s ≡ is_passing u id t
  unfolding is_passing
  is_passing_by_entry id s t h =
      ap
        (λ o. elim o [
          | none ↦ false
          | some x ↦ elim x.passing_to [
            | none ↦ false
            | some to ↦ is_passing_state x.authority_state
          ]
        ])
        h

  pub modify-snapshots :
      (id : Uuid) (g : AuthorityEntry → AuthorityEntry) (t : Tracker)
      → ((x : AuthorityEntry) → (g x).entity_snapshot ≡ x.entity_snapshot)
      → get_owned_entity_snapshots (modify u id g t) ≡ get_owned_entity_snapshots t
  unfolding get_owned_entity_snapshots
  modify-snapshots id g [] h = refl
  modify-snapshots id g (x ∷ xs) h = elim (Bool-cases (u.same x.0 id)) [
    | inl is ↦ rw is (ap (λ e. e ∷ map (λ y. y.1.entity_snapshot) xs) (h x.1))
    | inr apart ↦ rw apart (ap (◌∷◌ x.1.entity_snapshot) (modify-snapshots id g xs h))
  ]

  pub lookup-modify-none :
      (id k : Uuid) (g : AuthorityEntry → AuthorityEntry) (t : Tracker)
      → lookup u id t ≡ none
      → lookup u id (modify u k g t) ≡ none
  lookup-modify-none id k g t h = elim (Bool-cases (u.same k id)) [
    | inr apart ↦ lookup-modify_other u k id g t apart ∙ h
    | inl is ↦
        subst (λ y. lookup u id (modify u y g t) ≡ none) (sym (same-eq u k id is)) (absent t h)
  ]
    where
      absent : (s : Tracker) → lookup u id s ≡ none → lookup u id (modify u id g s) ≡ none
      absent [] k = refl
      absent (x ∷ xs) k = elim (Bool-cases (u.same x.0 id)) [
        | inl is ↦
            absurd (some-ne-none (sym (ap (λ b. if b then some x.1 else lookup u id xs) is) ∙ k))
        | inr apart ↦
            rw (apart, apart)
              (absent xs (sym (ap (λ b. if b then some x.1 else lookup u id xs) apart) ∙ k))
      ]

module _ (u : Uuids) (same : NetworkIdentity → NetworkIdentity → Bool) where
  passes-is_passing :
      (k : Uuid) (to : NetworkIdentity) (t : Tracker) (x : AuthorityEntry)
      → lookup u k t ≡ some x
      → passes_to same to x ≡ true
      → is_passing u k t ≡ true
  unfolding passes_to is_passing
  passes-is_passing k to t x h p =
      rw (is_passing, h)
        (elim (Option-cases x.passing_to) [
          | inl gone ↦ absurd (
              true-ne-false (
                sym p
                ∙ ap
                    (λ o. elim o [
                      | none ↦ false
                      | some by ↦ is_passing_state x.authority_state && same by to
                    ])
                    gone))
          | inr (by, is) ↦ rw is (
              left_true _ _ (
                sym (
                  ap
                    (λ o. elim o [
                      | none ↦ false
                      | some by ↦ is_passing_state x.authority_state && same by to
                    ])
                    is)
                ∙ p))
        ])
    where
      left_true : (a b : Bool) → (a && b) ≡ true → a ≡ true
      left_true a b h = ground arith

  -- Nothing is marked where the entity is unknown or passing already, or else its entry passes.
  pub mark_passing-cases :
      (k : Uuid) (to : NetworkIdentity) (t : Tracker)
      → ((mark_passing u same k to t ≡ (false, t))
          × ((lookup u k t ≡ none) ⊎ (is_passing u k t ≡ true)))
        ⊎ ((x : AuthorityEntry) × (lookup u k t ≡ some x)
            × (mark_passing u same k to t ≡ (true, modify u k (pass to) t)))
  unfolding mark_passing
  mark_passing-cases k to t = elim (Option-cases (lookup u k t)) [
    | inl gone ↦ inl (rw (mark_passing, gone) refl, inl gone)
    | inr (x, is) ↦ elim (Bool-cases (passes_to same to x)) [
      | inl there ↦
          inl (rw (mark_passing, is, there) refl, inr (passes-is_passing k to t x is there))
      | inr not_yet ↦ inr (x, is, rw (mark_passing, is, not_yet) refl)
    ]
  ]

  -- A property of the tracker that marks keep.
  pub mark_passing_keeps {ℓ} :
      (P : Tracker → Type ℓ) (k : Uuid) (to : NetworkIdentity) (t : Tracker)
      → P t
      → P (modify u k (pass to) t)
      → P (mark_passing u same k to t).1
  mark_passing_keeps P k to t h j = elim (mark_passing-cases k to t) [
    | inl (e, _) ↦ subst P (sym (ap (λ r. r.1) e)) h
    | inr (_, _, e) ↦ subst P (sym (ap (λ r. r.1) e)) j
  ]

  -- A mark that was set.
  pub mark_passing_set :
      (k : Uuid) (to : NetworkIdentity) (t : Tracker)
      → same to to ≡ true
      → (mark_passing u same k to t).0 ≡ true
      → (is_passing u k (mark_passing u same k to t).1 ≡ true)
        × (is_passing_to u same k to (mark_passing u same k to t).1 ≡ true)
  unfolding is_passing is_passing_to is_passing_state passes_to pass
  mark_passing_set k to t r h = elim (mark_passing-cases k to t) [
    | inl (e, _) ↦ absurd (true-ne-false (sym h ∙ ap (λ r. r.0) e))
    | inr (x, is, e) ↦
        subst (λ s. (is_passing u k s ≡ true) × (is_passing_to u same k to s ≡ true))
          (sym (ap (λ r. r.1) e)) (set x (lookup-modify_self u k (pass to) t x is))
  ]
    where
      set :
          (x : AuthorityEntry)
          → lookup u k (modify u k (pass to) t) ≡ some (pass to x)
          → (is_passing u k (modify u k (pass to) t) ≡ true)
            × (is_passing_to u same k to (modify u k (pass to) t) ≡ true)
      set x found =
          (rw (is_passing, found, pass) refl, rw (is_passing_to, found, passes_to, pass) r)

  -- Behind a mark, whether it was set or not, the entity is unknown or passing.
  pub mark_passing_after :
      (k : Uuid) (to : NetworkIdentity) (t : Tracker)
      → same to to ≡ true
      → (lookup u k (mark_passing u same k to t).1 ≡ none)
        ⊎ (is_passing u k (mark_passing u same k to t).1 ≡ true)
  mark_passing_after k to t r = elim (mark_passing-cases k to t) [
    | inl (e, why) ↦
        subst (λ s. (lookup u k s ≡ none) ⊎ (is_passing u k s ≡ true)) (sym (ap (λ r. r.1) e)) why
    | inr (x, is, e) ↦ inr (mark_passing_set k to t r (ap (λ r. r.0) e)).0
  ]

module _ (u : Uuids) (same : NetworkIdentity → NetworkIdentity → Bool) where
  pub passing_by_entry :
      (id : Uuid) (to : NetworkIdentity) (s t : Tracker)
      → lookup u id s ≡ lookup u id t
      → is_passing_to u same id to s ≡ is_passing_to u same id to t
  unfolding is_passing_to
  passing_by_entry id to s t h = ap (λ o. elim o [ none ↦ false | some x ↦ passes_to same to x ]) h
