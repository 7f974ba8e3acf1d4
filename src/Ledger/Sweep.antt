-- ===== src/Ledger/Sweep.antt =====
-- The rounds of `EntityLedger::LoopThreadEntry`.
use atlas_net.Prelude.{
  ◌≡◌, ◌≢◌, ◌⊎◌, inl, inr, refl, sym, ap, ◌∙◌, Bool, true, false, ◌||◌, List, [], ◌∷◌, map, some,
  if◌then◌else◌, All, Bool-cases,
}
use mathlib.Core.Path.{subst}
use atlas_net.Bytes.Writer.{Vec3}
use atlas_net.Entity.Full.{AtlasEntity}
use atlas_net.Ledger.Uuids.{Uuid, Uuids}
use atlas_net.Ledger.State.{EntityLedger, id_of, contains, sweep_loop, sweep}
use atlas_net.Ledger.Ordered.{LessAll, Ordered}

-- The entities out of bounds that are not among the marked, in the order of the map.
abbrev pub strays : Uuids → (Vec3 → Bool) → List Uuid → List AtlasEntity → List AtlasEntity
strays u inside marked [] = []
strays u inside marked (e ∷ es) =
    if contains u (id_of e) marked || inside e.base.transform.position
    then strays u inside marked es
    else e ∷ strays u inside marked es

true-ne-false : true ≢ false
true-ne-false e = cc

module _ (u : Uuids) (inside : Vec3 → Bool) where
  less-same : (a b : Uuid) → u.less a b ≡ true → u.same a b ≡ false
  less-same a b h = elim (Bool-cases (u.same a b)) [
    | inr apart ↦ apart
    | inl is ↦
        absurd
          (true-ne-false (sym h ∙ ap (λ x. u.less x b) ((u.same_iff a b).0 is) ∙ u.less_irrefl b))
  ]

  -- A mark below all keys does not matter.
  strays_later :
      (id : Uuid) (marked : List Uuid) (es : List AtlasEntity)
      → LessAll u id es
      → strays u inside (id ∷ marked) es ≡ strays u inside marked es
  unfolding contains
  strays_later id marked [] h = refl
  strays_later id marked (e ∷ es) h =
      rw (less-same id (id_of e) h.0, strays_later id marked es h.1) refl

  sweep_loop-strays :
      (es : List AtlasEntity) (marked : List Uuid)
      → Ordered u es
      → (sweep_loop u inside es marked).0 ≡ map id_of (strays u inside marked es)
  unfolding sweep_loop
  sweep_loop-strays [] marked o = refl
  sweep_loop-strays (e ∷ es) marked o = elim (Bool-cases (contains u (id_of e) marked)) [
    | inl old ↦ rw old (sweep_loop-strays es marked o.1)
    | inr new ↦ elim (Bool-cases (inside e.base.transform.position)) [
      | inl home ↦ rw (new, home) (sweep_loop-strays es marked o.1)
      | inr away ↦
          rw (new, away)
            (ap (◌∷◌ (id_of e)) (
              sweep_loop-strays es (id_of e ∷ marked) o.1
              ∙ ap (map id_of) (strays_later (id_of e) marked es o.0)))
    ]
  ]

  contains_self : (id : Uuid) (ids : List Uuid) → contains u id (id ∷ ids) ≡ true
  unfolding contains
  contains_self id ids = rw ((u.same_iff id id).1 refl) refl

  contains_later :
      (id x : Uuid) (ids : List Uuid) → contains u id ids ≡ true → contains u id (x ∷ ids) ≡ true
  unfolding contains
  contains_later id x ids h = elim (Bool-cases (u.same x id)) [
    | inl is ↦ rw is refl
    | inr apart ↦ rw apart h
  ]

  sweep_loop_keeps :
      (es : List AtlasEntity) (marked : List Uuid) (id : Uuid)
      → contains u id marked ≡ true
      → contains u id (sweep_loop u inside es marked).1 ≡ true
  unfolding sweep_loop
  sweep_loop_keeps [] marked id h = h
  sweep_loop_keeps (e ∷ es) marked id h = elim (Bool-cases (contains u (id_of e) marked)) [
    | inl old ↦ rw old (sweep_loop_keeps es marked id h)
    | inr new ↦ elim (Bool-cases (inside e.base.transform.position)) [
      | inl home ↦ rw (new, home) (sweep_loop_keeps es marked id h)
      | inr away ↦
          rw (new, away)
            (sweep_loop_keeps es (id_of e ∷ marked) id (contains_later id (id_of e) marked h))
    ]
  ]

  -- Every entity is marked or inside.
  abbrev Settled : List Uuid → List AtlasEntity → Type 0
  Settled marked es =
      All (λ e. (contains u (id_of e) marked ≡ true) ⊎ (inside e.base.transform.position ≡ true)) es

  module _ (e : AtlasEntity) (es : List AtlasEntity) (marked : List Uuid) where
    sweep_loop_old :
        contains u (id_of e) marked ≡ true
        → sweep_loop u inside (e ∷ es) marked ≡ sweep_loop u inside es marked
    unfolding sweep_loop
    sweep_loop_old old = rw old refl

    sweep_loop_home :
        contains u (id_of e) marked ≡ false
        → inside e.base.transform.position ≡ true
        → sweep_loop u inside (e ∷ es) marked ≡ sweep_loop u inside es marked
    unfolding sweep_loop
    sweep_loop_home new home = rw (new, home) refl

    sweep_loop_away :
        contains u (id_of e) marked ≡ false
        → inside e.base.transform.position ≡ false
        → (sweep_loop u inside (e ∷ es) marked).1 ≡ (sweep_loop u inside es (id_of e ∷ marked)).1
    unfolding sweep_loop
    sweep_loop_away new away = rw (new, away) refl

  sweep_loop-Settled :
      (es : List AtlasEntity) (marked : List Uuid) → Settled (sweep_loop u inside es marked).1 es
  sweep_loop-Settled [] marked = tt
  sweep_loop-Settled (e ∷ es) marked = elim (Bool-cases (contains u (id_of e) marked)) [
    | inl old ↦
        subst (λ m. Settled m (e ∷ es)) (sym (ap (λ r. r.1) (sweep_loop_old e es marked old)))
          (inl (sweep_loop_keeps es marked (id_of e) old), sweep_loop-Settled es marked)
    | inr new ↦ elim (Bool-cases (inside e.base.transform.position)) [
      | inl home ↦
          subst (λ m. Settled m (e ∷ es))
            (sym (ap (λ r. r.1) (sweep_loop_home e es marked new home)))
            (inr home, sweep_loop-Settled es marked)
      | inr away ↦
          subst (λ m. Settled m (e ∷ es)) (sym (sweep_loop_away e es marked new away))
            (
              inl (
                  sweep_loop_keeps es (id_of e ∷ marked) (id_of e)
                    (contains_self (id_of e) marked)),
              sweep_loop-Settled es (id_of e ∷ marked),
            )
    ]
  ]

  sweep_loop-of_Settled :
      (es : List AtlasEntity) (marked : List Uuid)
      → Settled marked es
      → sweep_loop u inside es marked ≡ ([], marked)
  unfolding sweep_loop
  sweep_loop-of_Settled [] marked s = refl
  sweep_loop-of_Settled (e ∷ es) marked (inl old, s) = rw old (sweep_loop-of_Settled es marked s)
  sweep_loop-of_Settled (e ∷ es) marked (inr home, s) =
      elim (Bool-cases (contains u (id_of e) marked)) [
        | inl old ↦ rw old (sweep_loop-of_Settled es marked s)
        | inr new ↦ rw (new, home) (sweep_loop-of_Settled es marked s)
      ]

module _ (u : Uuids) (inside : Vec3 → Bool) (l : EntityLedger) where
  -- On a ledger whose keys ascend, a round under a bound finds exactly the entities outside it that
  -- were not marked, in the order of the map, each once.
  pub sweep_finds :
      Ordered u l.entities
      → (sweep u (some inside) l).0 ≡ map id_of (strays u inside l.marked l.entities)
  unfolding sweep
  sweep_finds o = sweep_loop-strays u inside l.entities l.marked o

  -- A round that follows another under the same bound, with nothing moved in between, finds nothing
  -- and changes nothing.
  pub sweep_again :
      sweep u (some inside) (sweep u (some inside) l).1 ≡ ([], (sweep u (some inside) l).1)
  unfolding sweep
  sweep_again =
      let r = sweep_loop u inside l.entities l.marked in
      ap (λ p. (p.0, record l { marked = p.1 }))
        (sweep_loop-of_Settled u inside l.entities r.1
          (sweep_loop-Settled u inside l.entities l.marked))
