-- ===== src/Ledger/Filed.antt =====
-- The transfers of the coordinator by their ids, and the marks that a round leaves.
use atlas_net.Prelude.{
  ◌≡◌, ◌≢◌, inl, inr, refl, sym, ap, ◌∙◌, Bool, true, false, ◌||◌, List, [], ◌∷◌, Option, some,
  none, if◌then◌else◌, Bool-cases, arith,
}
use atlas_net.Bytes.Writer.{Vec3}
use atlas_net.Entity.Full.{AtlasEntity}
use atlas_net.Ledger.Uuids.{Uuid, Uuids}
use atlas_net.Ledger.State.{id_of, contains, sweep_loop}
use atlas_net.Ledger.Transfer.{TransferData, insert_transfer}

-- What stands under an id.
abbrev pub find_transfer :
    {S : Type 0} → Uuids → Uuid → List (TransferData S) → Option (TransferData S)
find_transfer u id [] = none
find_transfer u id (x ∷ xs) = if u.same x.id id then some x else find_transfer u id xs

true-ne-false : true ≢ false
true-ne-false e = cc

module _ {S : Type 0} (u : Uuids) (d : TransferData S) where
  other_than : (x k : Uuid) → u.same x d.id ≡ false → u.same x k ≡ true → u.same d.id k ≡ false
  other_than x k off is = elim (Bool-cases (u.same d.id k)) [
    | inr fine ↦ fine
    | inl too ↦
        absurd (true-ne-false (sym is ∙ ap (u.same x) (sym ((u.same_iff d.id k).0 too)) ∙ off))
  ]

  unheld :
      (x : TransferData S) (xs : List (TransferData S))
      → find_transfer u d.id (x ∷ xs) ≡ none
      → (u.same x.id d.id ≡ false) × (find_transfer u d.id xs ≡ none)
  unheld x xs h = elim (Bool-cases (u.same x.id d.id)) [
    | inl is ↦
        absurd (some-ne-none (sym (ap (λ b. if b then some x else find_transfer u d.id xs) is) ∙ h))
    | inr off ↦ (off, sym (ap (λ b. if b then some x else find_transfer u d.id xs) off) ∙ h)
  ]
    where
      some-ne-none : some x ≢ none
      some-ne-none e = cc

  pub find-insert :
      (k : Uuid) (ts : List (TransferData S))
      → find_transfer u d.id ts ≡ none
      → find_transfer u k (insert_transfer u d ts)
        ≡ (if u.same d.id k then some d else find_transfer u k ts)
  unfolding insert_transfer
  find-insert k [] h = refl
  find-insert k (x ∷ xs) h =
      let (off, later) = unheld x xs h in
      elim (Bool-cases (u.same x.id k)) [
        | inl here ↦ rw (off, here, other_than x.id k off here) refl
        | inr away ↦ rw (off, away) (find-insert k xs later)
      ]

module _ (u : Uuids) (inside : Vec3 → Bool) where
  -- A round marks what it finds, and keeps the marks.
  pub contains-sweep_loop :
      (k : Uuid) (es : List AtlasEntity) (marked : List Uuid)
      → contains u k (sweep_loop u inside es marked).1
        ≡ (contains u k marked || contains u k (sweep_loop u inside es marked).0)
  unfolding sweep_loop contains
  contains-sweep_loop k [] marked = or_false (contains u k marked)
    where
      or_false : (b : Bool) → b ≡ (b || false)
      or_false b = ground arith
  contains-sweep_loop k (e ∷ es) marked = elim (Bool-cases (contains u (id_of e) marked)) [
    | inl old ↦ rw old (contains-sweep_loop k es marked)
    | inr new ↦ elim (Bool-cases (inside e.base.transform.position)) [
      | inl stays ↦ rw (new, stays) (contains-sweep_loop k es marked)
      | inr out ↦
          rw (new, out)
            (contains-sweep_loop k es (id_of e ∷ marked)
              ∙ regroup (u.same (id_of e) k) (contains u k marked) _)
    ]
  ]
    where
      regroup : (a b c : Bool) → ((if a then true else b) || c) ≡ (b || (if a then true else c))
      regroup a b c = ground arith
