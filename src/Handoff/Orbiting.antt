-- ===== src/Handoff/Orbiting.antt =====
-- `DebugEntityOrbitSimulator` as the `DebugEntitySimulator` that `SH_ServerAuthorityRuntime` holds: in its
-- map, every entity stands under its own number.
use atlas_net.Prelude.{
  ℕ, zero, suc, ◌+◌, ◌-◌, ◌≡◌, refl, sym, ap, ◌∙◌, inl, inr, Bool, true, false, not, ◌&&◌, ◌||◌, [],
  ◌∷◌, map, length, leb, All, Bool-cases, arith,
}
use atlas_net.Ledger.Uuids.{Uuid, Uuids}
use atlas_net.Ledger.State.{id_of}
use atlas_net.Handoff.Maps.{Map, assign, erase, listed, same-eq}
use atlas_net.Handoff.Orbit.{
  Motion, SeedOptions, TickOptions, OrbitEntity, OrbitSimulator, reset, phase_offset, seeded,
  seed_one, seed_each, seed_entities, adopted_phase, adopt_single_entity, remove_entity, moved,
  tick, get_entities_snapshot,
}
use atlas_net.Handoff.Runtime.{Simulator}

abbrev pub IsKeyed : Map OrbitEntity → Type 0
IsKeyed = All (λ x. x.0 ≡ id_of x.1.entity)

module _ (u : Uuids) where
  pub IsKeyed-assign :
      (e : OrbitEntity) (m : Map OrbitEntity) → IsKeyed m → IsKeyed (assign u (id_of e.entity) e m)
  IsKeyed-assign e [] k = (refl, tt)
  IsKeyed-assign e (x ∷ xs) k = elim (Bool-cases (u.same x.0 (id_of e.entity))) [
    | inl is ↦ rw is (same-eq u x.0 (id_of e.entity) is, k.1)
    | inr apart ↦ rw apart (k.0, IsKeyed-assign e xs k.1)
  ]

  pub IsKeyed-erase : (id : Uuid) (m : Map OrbitEntity) → IsKeyed m → IsKeyed (erase u id m)
  IsKeyed-erase id [] k = tt
  IsKeyed-erase id (x ∷ xs) k = elim (Bool-cases (u.same x.0 id)) [
    | inl is ↦ rw is (IsKeyed-erase id xs k.1)
    | inr apart ↦ rw apart (k.0, IsKeyed-erase id xs k.1)
  ]

  pub listed-erase :
      (id k : Uuid) (m : Map OrbitEntity)
      → listed u k (map (λ x. x.0) (erase u id m))
        ≡ (not (u.same id k) && listed u k (map (λ x. x.0) m))
  listed-erase id k [] = elim (Bool-cases (u.same id k)) [
    | inl is ↦ rw is refl
    | inr apart ↦ rw apart refl
  ]
  listed-erase id k (x ∷ xs) = elim (Bool-cases (u.same x.0 id)) [
    | inl is ↦ rw is (
        listed-erase id k xs
        ∙ covered (u.same id k) (u.same x.0 k) (listed u k (map (λ y. y.0) xs))
            (ap (λ y. u.same y k) (same-eq u x.0 id is)))
    | inr apart ↦ rw apart (
        ap (λ b. u.same x.0 k || b) (listed-erase id k xs)
        ∙ beside (u.same id k) (u.same x.0 k) (listed u k (map (λ y. y.0) xs))
            (λ is. ap (u.same x.0) (sym (same-eq u id k is)) ∙ apart))
  ]
    where
      covered : (a b c : Bool) → b ≡ a → (not a && c) ≡ (not a && (b || c))
      covered a b c h = ground arith

      beside : (a b c : Bool) → (a ≡ true → b ≡ false) → (b || (not a && c)) ≡ (not a && (b || c))
      beside true b c h = rw (h refl) refl
      beside false true c h = refl
      beside false false c h = refl

pub IsKeyed-map :
    (g : OrbitEntity → OrbitEntity) (m : Map OrbitEntity)
    → ((x : OrbitEntity) → id_of (g x).entity ≡ id_of x.entity)
    → IsKeyed m
    → IsKeyed (map (λ x. (x.0, g x.1)) m)
IsKeyed-map g [] h k = tt
IsKeyed-map g (x ∷ xs) h k = (k.0 ∙ sym (h x.1), IsKeyed-map g xs h k.1)

pub keys_lem :
    (m : Map OrbitEntity) → IsKeyed m → map id_of (map (λ x. x.1.entity) m) ≡ map (λ x. x.0) m
keys_lem [] k = refl
keys_lem (x ∷ xs) k = rw (keys_lem xs k.1, k.0) refl

module _ (u : Uuids) (f : Motion) where
  IsKeyed-seed_each :
      (o : SeedOptions) (left i : ℕ) (s : OrbitSimulator u f)
      → IsKeyed s.entities_by_id
      → IsKeyed (seed_each u f o left i s).entities_by_id
  IsKeyed-seed_each o zero i s k = k
  IsKeyed-seed_each o (suc left) i s k = IsKeyed-seed_each o left (i + 1) (seed_one u f o i s) (
      IsKeyed-assign u (seeded u f o i s.orbit_angle_rad (phase_offset u f o i s.rng).0)
        s.entities_by_id k)

  pub IsKeyed-seed_entities :
      (o : SeedOptions) (s : OrbitSimulator u f)
      → IsKeyed s.entities_by_id
      → IsKeyed (seed_entities u f o s).entities_by_id
  IsKeyed-seed_entities o s k = elim (Bool-cases (leb o.desired_count (length s.entities_by_id))) [
    | inl enough ↦ rw enough k
    | inr few ↦ rw few (
        IsKeyed-seed_each o (o.desired_count - length s.entities_by_id) (length s.entities_by_id) s
          k)
  ]

  pub record Keyed : Type 0 where
    pub state : OrbitSimulator u f
    pub keyed : IsKeyed state.entities_by_id

  -- With the options that the runtime gives to `SeedEntities` and `Tick`, and `seconds` to make a float of
  -- the microseconds since the last tick.
  abbrev pub orbit_simulator : SeedOptions → TickOptions → (ℕ → ℕ) → Simulator u
  orbit_simulator so to seconds = record {
    State = Keyed;
    reset = λ s. record { state = reset u f s.state; keyed = tt };
    seed = λ s. record {
      state = seed_entities u f so s.state;
      keyed = IsKeyed-seed_entities so s.state s.keyed;
    };
    adopt = λ e s. record {
      state = adopt_single_entity u f e s.state;
      keyed =
          IsKeyed-assign u
            (record { entity = e; phase_offset_rad = adopted_phase u f e s.state.orbit_angle_rad })
            s.state.entities_by_id s.keyed;
    };
    remove = λ id s. record {
      state = remove_entity u f id s.state;
      keyed = IsKeyed-erase u id s.state.entities_by_id s.keyed;
    };
    move = λ n s. record {
      state = tick u f to (seconds n) s.state;
      keyed =
          IsKeyed-map (moved u f to (tick u f to (seconds n) s.state).orbit_angle_rad)
            s.state.entities_by_id (λ x. refl) s.keyed;
    };
    entities = λ s. get_entities_snapshot u f s.state;
    population = λ s. length s.state.entities_by_id;
    listed-remove = λ id k s.
        ap (listed u k) (
          keys_lem (erase u id s.state.entities_by_id)
            (IsKeyed-erase u id s.state.entities_by_id s.keyed))
        ∙ listed-erase u id k s.state.entities_by_id
        ∙ ap (λ ks. not (u.same id k) && listed u k ks)
            (sym (keys_lem s.state.entities_by_id s.keyed));
  }
