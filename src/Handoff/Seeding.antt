-- ===== src/Handoff/Seeding.antt =====
-- `SeedEntities` of `DebugEntityOrbitSimulator`: which entities are there behind it, and how many. The
-- order of the container is left open.
use atlas_net.Prelude.{
  ℕ, zero, suc, ◌+◌, ◌-◌, ◌≤◌, ◌≡◌, sym, ap, ◌∙◌, inl, inr, Bool, true, false, ◌||◌, List, [], ◌∷◌,
  map, length, leb, if◌then◌else◌, Bool-cases, arith,
}
use atlas_net.Ledger.Uuids.{Uuid, Uuids}
use atlas_net.Ledger.State.{id_of}
use atlas_net.Handoff.Maps.{Map, assign, listed, same-eq}
use atlas_net.Handoff.Orbit.{
  Motion, SeedOptions, OrbitEntity, OrbitSimulator, make_entity_id, phase_offset, seeded, seed_one,
  seed_each, seed_entities, get_entities_snapshot,
}
use atlas_net.Handoff.Orbiting.{IsKeyed, IsKeyed-seed_entities, keys_lem}

abbrev keys : Map OrbitEntity → List Uuid
keys = map (λ x. x.0)

module _ (u : Uuids) where
  listed-assign :
      (id k : Uuid) (e : OrbitEntity) (m : Map OrbitEntity)
      → listed u k (keys (assign u id e m)) ≡ (listed u k (keys m) || u.same id k)
  listed-assign id k e [] = or_false (u.same id k)
    where
      or_false : (b : Bool) → (b || false) ≡ b
      or_false b = ground arith
  listed-assign id k e (x ∷ xs) = elim (Bool-cases (u.same x.0 id)) [
    | inl is ↦ rw is (
        covered (u.same x.0 k) (listed u k (keys xs)) (u.same id k)
          (ap (λ y. u.same y k) (same-eq u x.0 id is)))
    | inr apart ↦ rw apart (
        ap (λ b. u.same x.0 k || b) (listed-assign id k e xs)
        ∙ regroup (u.same x.0 k) (listed u k (keys xs)) (u.same id k))
  ]
    where
      covered : (a b c : Bool) → a ≡ c → (a || b) ≡ ((a || b) || c)
      covered a b c h = ground arith

      regroup : (a b c : Bool) → (a || (b || c)) ≡ ((a || b) || c)
      regroup a b c = ground arith

  length-assign :
      (id : Uuid) (e : OrbitEntity) (m : Map OrbitEntity)
      → (length m ≤ length (assign u id e m)) × (length (assign u id e m) ≤ length m + 1)
  length-assign id e [] = (omega arith, omega arith)
  length-assign id e (x ∷ xs) = elim (Bool-cases (u.same x.0 id)) [
    | inl is ↦ rw is (omega arith, omega arith)
    | inr apart ↦
        let (lo, hi) = length-assign id e xs in rw apart (omega (arith, lo), omega (arith, hi))
  ]

module _ (u : Uuids) (f : Motion) where
  -- The numbers from `i` on, `left` of them.
  abbrev pub made : ℕ → ℕ → List Uuid
  made i zero = []
  made i (suc left) = make_entity_id u f i ∷ made (i + 1) left

  listed-seed_each :
      (k : Uuid) (o : SeedOptions) (left i : ℕ) (s : OrbitSimulator u f)
      → listed u k (keys (seed_each u f o left i s).entities_by_id)
        ≡ (listed u k (keys s.entities_by_id) || listed u k (made i left))
  listed-seed_each k o zero i s = or_false (listed u k (keys s.entities_by_id))
    where
      or_false : (b : Bool) → b ≡ (b || false)
      or_false b = ground arith
  listed-seed_each k o (suc left) i s =
      let e = seeded u f o i s.orbit_angle_rad (phase_offset u f o i s.rng).0 in
      listed-seed_each k o left (i + 1) (seed_one u f o i s)
      ∙ ap (λ b. b || listed u k (made (i + 1) left))
          (listed-assign u (make_entity_id u f i) k e s.entities_by_id)
      ∙ regroup (listed u k (keys s.entities_by_id)) (u.same (make_entity_id u f i) k)
          (listed u k (made (i + 1) left))
    where
      regroup : (a b c : Bool) → ((a || b) || c) ≡ (a || (b || c))
      regroup a b c = ground arith

  length-seed_each :
      (o : SeedOptions) (left i : ℕ) (s : OrbitSimulator u f)
      → (length s.entities_by_id ≤ length (seed_each u f o left i s).entities_by_id)
        × (length (seed_each u f o left i s).entities_by_id ≤ length s.entities_by_id + left)
  length-seed_each o zero i s = (omega arith, omega arith)
  length-seed_each o (suc left) i s =
      let e = seeded u f o i s.orbit_angle_rad (phase_offset u f o i s.rng).0 in
      let (lo, hi) = length-assign u (make_entity_id u f i) e s.entities_by_id in
      let (low, high) = length-seed_each o left (i + 1) (seed_one u f o i s) in
      (omega (arith, lo, low), omega (arith, hi, high))

  module _ (o : SeedOptions) (s : OrbitSimulator u f) where
    abbrev missing : ℕ
    missing = o.desired_count - length s.entities_by_id

    abbrev after : OrbitSimulator u f
    after = seed_entities u f o s

    listed-seed_entities :
        (k : Uuid)
        → listed u k (keys after.entities_by_id) ≡ (
            listed u k (keys s.entities_by_id)
            || listed u k (made (length s.entities_by_id) missing))
    listed-seed_entities k = elim (Bool-cases (leb o.desired_count (length s.entities_by_id))) [
      | inl enough ↦
          rw (enough, none_missing o.desired_count (length s.entities_by_id) enough)
            (or_false (listed u k (keys s.entities_by_id)))
      | inr few ↦ rw few (listed-seed_each k o missing (length s.entities_by_id) s)
    ]
      where
        none_missing : (d n : ℕ) → leb d n ≡ true → d - n ≡ 0
        none_missing d n h = ground arith

        or_false : (b : Bool) → b ≡ (b || false)
        or_false b = ground arith

    bounded :
        (length s.entities_by_id ≤ length after.entities_by_id)
        × (length after.entities_by_id ≤ (
            if leb o.desired_count (length s.entities_by_id)
            then length s.entities_by_id
            else o.desired_count))
    bounded = elim (Bool-cases (leb o.desired_count (length s.entities_by_id))) [
      | inl enough ↦ rw enough (omega arith, omega arith)
      | inr few ↦
          let (lo, hi) = length-seed_each o missing (length s.entities_by_id) s in
          rw few (lo, filled o.desired_count (length s.entities_by_id) _ few hi)
    ]
      where
        filled : (d n l : ℕ) → leb d n ≡ false → l ≤ n + (d - n) → l ≤ d
        filled d n l few h = ground arith

    -- Where the simulator keeps each entity under its own number: behind `SeedEntities` it holds the
    -- numbers that it held and those that `MakeEntityId` makes for the places from its size up to
    -- `desiredCount`, and no others; it does not hold fewer entities than before, and not more than
    -- `desiredCount`, or than before where these were more.
    pub seed_entities_lem :
        IsKeyed s.entities_by_id
        → ((k : Uuid)
            → listed u k (map id_of (get_entities_snapshot u f after)) ≡ (
                listed u k (map id_of (get_entities_snapshot u f s))
                || listed u k (made (length s.entities_by_id) missing)))
          × (length s.entities_by_id ≤ length after.entities_by_id)
          × (length after.entities_by_id ≤ (
              if leb o.desired_count (length s.entities_by_id)
              then length s.entities_by_id
              else o.desired_count))
    seed_entities_lem keyed = (
      λ k.
          ap (listed u k) (keys_lem after.entities_by_id (IsKeyed-seed_entities u f o s keyed))
          ∙ listed-seed_entities k
          ∙ ap (λ ks. listed u k ks || listed u k (made (length s.entities_by_id) missing))
              (sym (keys_lem s.entities_by_id keyed)),
      bounded.0,
      bounded.1,
    )
