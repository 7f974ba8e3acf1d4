-- ===== src/Handoff/Places.antt =====
-- Where the target of a handoff that the planner finds lies.
use atlas_net.Prelude.{
  ◌≡◌, refl, sym, ap, ◌∙◌, ◌⊎◌, inl, inr, Bool, true, false, List, [], ◌∷◌, ◌++◌, Option, some,
  none, if◌then◌else◌, Option-cases, Bool-cases, some-cancel,
}
use mathlib.Core.Path.{subst}
use atlas_net.Bytes.Writer.{Vec3}
use atlas_net.Network.Identity.{NetworkIdentity}
use atlas_net.Heuristic.Floats.{Floats}
use atlas_net.Heuristic.Geometry.{contains}
use atlas_net.Heuristic.Grid.{GridShape}
use atlas_net.Handoff.Marks.{some-ne-none}
use atlas_net.Handoff.Planner.{Claims, unset, select_target, resolve, destination}

module _ (same : NetworkIdentity → NetworkIdentity → Bool) (f : Floats)
    (self : NetworkIdentity) where
  -- A shard that is not this one claims bounds with the position in them, under that identity, or the
  -- identity is that of a default constructed key.
  abbrev pub HasPlace : Claims → Vec3 → NetworkIdentity → Type 0
  HasPlace claims p to =
      (same to unset ≡ true)
      ⊎ ((c : NetworkIdentity × GridShape) × (before : Claims) × (after : Claims) × (claims
            ≡ before ++ c ∷ after)
          × (same to c.0 ≡ true)
          × (same c.0 self ≡ false)
          × (contains f c.1.aabb p ≡ true))

  place_later :
      (c : NetworkIdentity × GridShape) (cs : Claims) (p : Vec3) (to : NetworkIdentity)
      → HasPlace cs p to
      → HasPlace (c ∷ cs) p to
  place_later c cs p to (inl it) = inl it
  place_later c cs p to (inr (d, before, after, e, is, other, inside)) =
      inr (d, c ∷ before, after, ap (◌∷◌ c) e, is, other, inside)

  select_target-HasPlace :
      (claims : Claims) (p : Vec3) (to : NetworkIdentity)
      → same to (select_target same f self p claims) ≡ true
      → HasPlace claims p to
  unfolding select_target
  select_target-HasPlace [] p to h = inl h
  select_target-HasPlace (c ∷ cs) p to h = elim (Bool-cases (same c.0 self)) [
    | inl own ↦ place_later c cs p to (
        select_target-HasPlace cs p to
          (sym (ap (λ a. same to (choice a (contains f c.1.aabb p))) own) ∙ h))
    | inr other ↦ elim (Bool-cases (contains f c.1.aabb p)) [
      | inl inside ↦ inr (c, [], cs, refl, chosen other inside, other, inside)
      | inr outside ↦ place_later c cs p to (select_target-HasPlace cs p to (passed other outside))
    ]
  ]
    where
      choice : Bool → Bool → NetworkIdentity
      choice a b =
          let rest = select_target same f self p cs in if a then rest else if b then c.0 else rest

      chosen : same c.0 self ≡ false → contains f c.1.aabb p ≡ true → same to c.0 ≡ true
      chosen other inside =
          sym (
            ap (λ a. same to (choice a (contains f c.1.aabb p))) other
            ∙ ap (λ b. same to (choice false b)) inside)
          ∙ h

      passed :
          same c.0 self ≡ false
          → contains f c.1.aabb p ≡ false
          → same to (select_target same f self p cs) ≡ true
      passed other outside =
          sym (
            ap (λ a. same to (choice a (contains f c.1.aabb p))) other
            ∙ ap (λ b. same to (choice false b)) outside)
          ∙ h

  resolve_same :
      (key : NetworkIdentity) (servers : List NetworkIdentity) (to : NetworkIdentity)
      → resolve same key servers ≡ some to
      → same to key ≡ true
  unfolding resolve
  resolve_same key [] to h = absurd (some-ne-none (sym h))
  resolve_same key (x ∷ xs) to h = elim (Bool-cases (same x key)) [
    | inl is ↦
        subst (λ y. same y key ≡ true)
          (some-cancel (sym (ap (λ b. if b then some x else resolve same key xs) is) ∙ h)) is
    | inr apart ↦
        resolve_same key xs to (sym (ap (λ b. if b then some x else resolve same key xs) apart) ∙ h)
  ]

  -- What a destination is.
  pub destination_lem :
      (claims : Claims) (servers : List NetworkIdentity) (p : Vec3) (to : NetworkIdentity)
      → destination same f self claims servers p ≡ some to
      → (same to self ≡ false) × HasPlace claims p to
  unfolding destination
  destination_lem claims servers p to h =
      elim (Option-cases (resolve same (select_target same f self p claims) servers)) [
        | inl gone ↦ absurd (some-ne-none (sym (sym (ap settle gone) ∙ h)))
        | inr (x, is) ↦ elim (Bool-cases (same x self)) [
          | inl own ↦ absurd (
              some-ne-none
                (sym (sym (ap settle is ∙ ap (λ b. if b then none else some x) own) ∙ h)))
          | inr other ↦
              let e =
                some-cancel (sym (ap settle is ∙ ap (λ b. if b then none else some x) other) ∙ h) in
              (
                subst (λ y. same y self ≡ false) e other,
                subst (HasPlace claims p) e
                    (select_target-HasPlace claims p x (resolve_same _ servers x is)),
              )
        ]
      ]
    where
      settle : Option NetworkIdentity → Option NetworkIdentity
      settle o = elim o [ none ↦ none | some x ↦ if same x self then none else some x ]
