-- ===== src/Ledger/Ordered.antt =====
-- The `flat_map` of `EntityLedger` under registration and lookup.
use atlas_net.Prelude.{
  ◌≡◌, ◌≢◌, ◌⊎◌, inl, inr, refl, sym, ◌∙◌, true, false, List, [], ◌∷◌, some, none, if◌then◌else◌,
  All, Bool-cases,
}
use atlas_net.Entity.Full.{AtlasEntity}
use atlas_net.Ledger.Uuids.{Uuid, Uuids}
use atlas_net.Ledger.State.{EntityLedger, id_of, find, insert, register_new_entity}

abbrev pub LessAll : Uuids → Uuid → List AtlasEntity → Type 0
LessAll u id es = All (λ e. u.less id (id_of e) ≡ true) es

-- The keys ascend strictly.
abbrev pub Ordered : Uuids → List AtlasEntity → Type 0
Ordered u [] = Unit
Ordered u (x ∷ xs) = LessAll u (id_of x) xs × Ordered u xs

true-ne-false : true ≢ false
true-ne-false e = cc

some-ne-none : (x : AtlasEntity) → some x ≢ none
some-ne-none x e = cc

abbrev pub Member : AtlasEntity → List AtlasEntity → Type 0
Member e [] = ⊥
Member e (x ∷ xs) = (x ≡ e) ⊎ Member e xs

module _ (u : Uuids) where
  below :
      (id : Uuid) (es : List AtlasEntity) (e : AtlasEntity)
      → LessAll u id es
      → Member e es
      → u.less id (id_of e) ≡ true
  below id [] e h m = absurd m
  below id (x ∷ xs) e h (inl here) = rw here at h.0
  below id (x ∷ xs) e h (inr later) = below id xs e h.1 later

  LessAll-trans :
      (a b : Uuid) (es : List AtlasEntity) → u.less a b ≡ true → LessAll u b es → LessAll u a es
  LessAll-trans a b [] h hs = tt
  LessAll-trans a b (x ∷ xs) h hs = (u.less_trans a b (id_of x) h hs.0, LessAll-trans a b xs h hs.1)

  insert-LessAll :
      (id : Uuid) (e : AtlasEntity) (es : List AtlasEntity)
      → u.less id (id_of e) ≡ true
      → LessAll u id es
      → LessAll u id (insert u e es)
  unfolding insert
  insert-LessAll id e [] h hs = (h, tt)
  insert-LessAll id e (x ∷ xs) h hs = elim (Bool-cases (u.less (id_of x) (id_of e))) [
    | inl before ↦ rw before (hs.0, insert-LessAll id e xs h hs.1)
    | inr past ↦ elim (Bool-cases (u.less (id_of e) (id_of x))) [
      | inl behind ↦ rw (past, behind) (h, (hs.0, hs.1))
      | inr here ↦ rw (past, here) hs
    ]
  ]

  insert-Ordered :
      (e : AtlasEntity) (es : List AtlasEntity) → Ordered u es → Ordered u (insert u e es)
  unfolding insert
  insert-Ordered e [] o = (tt, tt)
  insert-Ordered e (x ∷ xs) o = elim (Bool-cases (u.less (id_of x) (id_of e))) [
    | inl before ↦ rw before (insert-LessAll (id_of x) e xs before o.0, insert-Ordered e xs o.1)
    | inr past ↦ elim (Bool-cases (u.less (id_of e) (id_of x))) [
      | inl behind ↦
          rw (past, behind) ((behind, LessAll-trans (id_of e) (id_of x) xs behind o.0), (o.0, o.1))
      | inr here ↦ rw (past, here) o
    ]
  ]

  find-insert :
      (e : AtlasEntity) (es : List AtlasEntity)
      → find u (id_of e) es ≡ none
      → find u (id_of e) (insert u e es) ≡ some e
  unfolding find insert
  find-insert e [] h = rw (u.less_irrefl (id_of e)) refl
  find-insert e (x ∷ xs) h = elim (Bool-cases (u.less (id_of x) (id_of e))) [
    | inl before ↦ rw (before, find, before) (find-insert e xs (rw before at h))
    | inr past ↦ elim (Bool-cases (u.less (id_of e) (id_of x))) [
      | inl behind ↦ rw (past, behind, find, u.less_irrefl (id_of e)) refl
      | inr here ↦ absurd (some-ne-none x (rw (past, here) at h))
    ]
  ]

  less_asym : (a b : Uuid) → u.less a b ≡ true → u.less b a ≡ false
  less_asym a b h = elim (Bool-cases (u.less b a)) [
    | inl back ↦ absurd (true-ne-false (sym (u.less_trans a b a h back) ∙ u.less_irrefl a))
    | inr past ↦ past
  ]

  find-insert_other :
      (id : Uuid) (e : AtlasEntity) (es : List AtlasEntity)
      → id ≢ id_of e
      → find u id (insert u e es) ≡ find u id es
  unfolding find insert
  find-insert_other id e [] ne = elim (Bool-cases (u.less (id_of e) id)) [
    | inl before ↦ rw before refl
    | inr past ↦ elim (Bool-cases (u.less id (id_of e))) [
      | inl behind ↦ rw (past, behind) refl
      | inr here ↦ absurd (ne (u.less_total id (id_of e) here past))
    ]
  ]
  find-insert_other id e (x ∷ xs) ne = elim (Bool-cases (u.less (id_of x) (id_of e))) [
    | inl before ↦ elim (Bool-cases (u.less (id_of x) id)) [
      | inl below ↦ rw (before, find, below) (find-insert_other id e xs ne)
      | inr above ↦ rw (before, find, above) refl
    ]
    | inr past ↦ elim (Bool-cases (u.less (id_of e) (id_of x))) [
      | inr here ↦ rw (past, here) refl
      | inl behind ↦ elim (Bool-cases (u.less (id_of e) id)) [
        | inl below ↦ rw (past, behind, find, below) refl
        | inr above ↦ elim (Bool-cases (u.less id (id_of e))) [
          | inr same ↦ absurd (ne (u.less_total id (id_of e) same above))
          | inl under ↦
              let far = u.less_trans id (id_of e) (id_of x) under behind in
              rw (past, behind, find, above, under, less_asym id (id_of x) far, far) refl
        ]
      ]
    ]
  ]

  -- An entity of an ascending map is found under its key.
  pub find_known :
      (es : List AtlasEntity) (e : AtlasEntity)
      → Ordered u es
      → Member e es
      → find u (id_of e) es ≡ some e
  unfolding find
  find_known [] e o m = absurd m
  find_known (x ∷ xs) e o (inl here) = rw here (rw (u.less_irrefl (id_of e)) refl)
  find_known (x ∷ xs) e o (inr later) =
      rw (below (id_of x) xs e o.0 later) (find_known xs e o.1 later)

module _ (u : Uuids) (e : AtlasEntity) (l : EntityLedger) where
  -- On a ledger whose keys ascend, where no entity has the key of `e`, `RegisterNewEntity` succeeds;
  -- the keys of the new ledger ascend, every key finds what it found before, but for the key of `e`,
  -- which finds `e`, and the marks are as before.
  pub register_new_entity_lem :
      Ordered u l.entities
      → find u (id_of e) l.entities ≡ none
      → (l' : EntityLedger) × (register_new_entity u e l ≡ some l')
        × Ordered u l'.entities
        × ((id : Uuid)
            → find u id l'.entities
              ≡ (if u.same id (id_of e) then some e else find u id l.entities))
        × (l'.marked ≡ l.marked)
  unfolding register_new_entity
  register_new_entity_lem o fresh = (
    record l { entities = insert u e l.entities },
    rw (register_new_entity, fresh) refl,
    insert-Ordered u e l.entities o,
    λ id. found id (Bool-cases (u.same id (id_of e))),
    refl,
  )
    where
      found :
          (id : Uuid)
          → (u.same id (id_of e) ≡ true) ⊎ (u.same id (id_of e) ≡ false)
          → find u id (insert u e l.entities)
            ≡ (if u.same id (id_of e) then some e else find u id l.entities)
      found id (inl is) =
          rw is (rw ((u.same_iff id (id_of e)).0 is) (find-insert u e l.entities fresh))
      found id (inr is) = rw is (
          find-insert_other u id e l.entities
            (λ q. true-ne-false (sym ((u.same_iff id (id_of e)).1 q) ∙ is)))
