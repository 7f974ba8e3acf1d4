-- ===== src/Ledger/HandOver.antt =====
-- What `MarkEntitiesForTransfer` files, and what a round of `LoopThreadEntry` comes to.
use atlas_net.Prelude.{
  ◌≡◌, inl, inr, refl, sym, ap, ◌∙◌, Bool, true, false, ◌||◌, List, [], ◌∷◌, ◌++◌, map, Option,
  some, none, if◌then◌else◌, All, Bool-cases, append_assoc, append-nil,
}
use atlas_net.Bytes.Writer.{Vec3}
use atlas_net.Entity.Full.{AtlasEntity}
use atlas_net.Packets.EntityTransfer.{prepare}
use atlas_net.Packets.ClientTransfer.{shard_prepare}
use atlas_net.Ledger.Uuids.{Uuid, Uuids}
use atlas_net.Ledger.State.{EntityLedger, id_of, is_entity_client, find, sweep, contains}
use atlas_net.Ledger.Ordered.{Ordered, find_known, Member}
use atlas_net.Ledger.Sweep.{strays, sweep_finds}
use atlas_net.Ledger.Filed.{find_transfer, find-insert, contains-sweep_loop}
use atlas_net.Ledger.Transfer.{
  TransferData, TransferCoordinator, Collected, insert_transfer, start, push, collect, insert_some,
  mark_entities_for_transfer, hand_over, round,
}

abbrev pub clients : List AtlasEntity → List AtlasEntity
clients [] = []
clients (e ∷ es) = if e.base.is_client then e ∷ clients es else clients es

abbrev pub others : List AtlasEntity → List AtlasEntity
others [] = []
others (e ∷ es) = if e.base.is_client then others es else e ∷ others es

-- The transfer of some ids: none for no ids.
abbrev pub gathered : {S : Type 0} → S → Uuid → List Uuid → Option (TransferData S)
gathered first id [] = none
gathered first id (x ∷ xs) = some (record {
  id = id;
  stage = first;
  entity_ids = x ∷ xs;
  waiting_on_response = false;
  started = false;
})

-- One new transfer with all the ids, filed under its own; nothing for no ids.
abbrev filed :
    {S : Type 0} → Uuids → S → Uuid → List Uuid → List (TransferData S) → List (TransferData S)
filed u first id [] ts = ts
filed u first id (x ∷ xs) ts =
    insert_transfer u
      (record {
        id = id;
        stage = first;
        entity_ids = x ∷ xs;
        waiting_on_response = false;
        started = false;
      })
      ts

module _ {S : Type 0} (u : Uuids) (first : S) (id : Uuid) where
  push-gathered :
      (x : Uuid) (ys : List Uuid)
      → some (push x (start first id (gathered first id ys))) ≡ gathered first id (ys ++ x ∷ [])
  unfolding push start
  push-gathered x [] = refl
  push-gathered x (y ∷ ys) = refl

  -- What stands under an id behind the filing.
  pub find-filed :
      (k : Uuid) (xs : List Uuid) (ts : List (TransferData S))
      → find_transfer u id ts ≡ none
      → find_transfer u k (filed u first id xs ts)
        ≡ (if u.same id k then gathered first id xs else find_transfer u k ts)
  find-filed k [] ts h = elim (Bool-cases (u.same id k)) [
    | inl is ↦ rw is (ap (λ y. find_transfer u y ts) (sym ((u.same_iff id k).0 is)) ∙ h)
    | inr other ↦ rw other refl
  ]
  find-filed k (x ∷ xs) ts h = find-insert u _ k ts h

  insert_some-gathered :
      (xs : List Uuid) (ts : List (TransferData S))
      → insert_some u (gathered first id xs) ts ≡ filed u first id xs ts
  unfolding insert_some
  insert_some-gathered [] ts = refl
  insert_some-gathered (x ∷ xs) ts = refl

module _ (u : Uuids) (l : EntityLedger) (entity_id client_id : Uuid) where
  abbrev Known : AtlasEntity → Type 0
  Known e = find u (id_of e) l.entities ≡ some e

  is_entity_client-Known :
      (e : AtlasEntity) → Known e → is_entity_client u (id_of e) l ≡ some e.base.is_client
  unfolding is_entity_client
  is_entity_client-Known e k = rw (is_entity_client, k) refl

  module _ (x : Uuid) (xs : List Uuid) (c : Collected) where
    collect_client :
        is_entity_client u x l ≡ some true
        → collect u l entity_id client_id (x ∷ xs) c
          ≡ collect u l entity_id client_id xs
              (c.0, some (push x (start shard_prepare client_id c.1)))
    unfolding collect
    collect_client h = rw (collect, h) refl

    collect_other :
        is_entity_client u x l ≡ some false
        → collect u l entity_id client_id (x ∷ xs) c
          ≡ collect u l entity_id client_id xs (some (push x (start prepare entity_id c.0)), c.1)
    unfolding collect
    collect_other h = rw (collect, h) refl

  collect-gathered :
      (es : List AtlasEntity) (xs ys : List Uuid)
      → All Known es
      → collect u l entity_id client_id
          (map id_of es)
          (gathered prepare entity_id xs, gathered shard_prepare client_id ys)
        ≡ some (
          gathered prepare entity_id (xs ++ map id_of (others es)),
          gathered shard_prepare client_id (ys ++ map id_of (clients es)),
        )
  unfolding collect
  collect-gathered [] xs ys ks = rw (append-nil xs, append-nil ys) refl
  collect-gathered (e ∷ es) xs ys ks = elim (Bool-cases e.base.is_client) [
    | inl client ↦
        collect_client (id_of e) (map id_of es) _ (is_entity_client-Known e ks.0 ∙ ap some client)
        ∙ ap
            (λ d. collect u l entity_id client_id (map id_of es) (gathered prepare entity_id xs, d))
            (push-gathered u shard_prepare client_id (id_of e) ys)
        ∙ collect-gathered es xs (ys ++ id_of e ∷ []) ks.1
        ∙ rw (client, append_assoc ys (id_of e ∷ []) (map id_of (clients es))) refl
    | inr other ↦
        collect_other (id_of e) (map id_of es) _ (is_entity_client-Known e ks.0 ∙ ap some other)
        ∙ ap
            (λ d.
              collect u l entity_id client_id (map id_of es)
                (d, gathered shard_prepare client_id ys))
            (push-gathered u prepare entity_id (id_of e) xs)
        ∙ collect-gathered es (xs ++ id_of e ∷ []) ys ks.1
        ∙ rw (other, append_assoc xs (id_of e ∷ []) (map id_of (others es))) refl
  ]

  -- What is filed for some entities of the ledger.
  abbrev pub filed_for : List AtlasEntity → TransferCoordinator → TransferCoordinator
  filed_for es c = record {
    entity_transfers = filed u prepare entity_id (map id_of (others es)) c.entity_transfers;
    client_transfers = filed u shard_prepare client_id (map id_of (clients es)) c.client_transfers;
  }

  mark-Known :
      (es : List AtlasEntity) (c : TransferCoordinator)
      → All Known es
      → mark_entities_for_transfer u l entity_id client_id (map id_of es) c ≡ some (filed_for es c)
  unfolding mark_entities_for_transfer
  mark-Known es c ks =
      ap
        (λ o. elim o [
          | none ↦ none
          | some (ed, cd) ↦ some (record {
            entity_transfers = insert_some u ed c.entity_transfers;
            client_transfers = insert_some u cd c.client_transfers;
          })
        ])
        (collect-gathered es [] [] ks)
      ∙ ap some (
          rw
            (
              insert_some-gathered u prepare entity_id (map id_of (others es)) c.entity_transfers,
              insert_some-gathered u shard_prepare client_id (map id_of (clients es))
                  c.client_transfers,
            )
            refl)

  hand_over-Known :
      (es : List AtlasEntity) (c : TransferCoordinator)
      → All Known es
      → hand_over u entity_id client_id (map id_of es) l c ≡ some (l, filed_for es c)
  unfolding hand_over
  hand_over-Known [] c ks = refl
  hand_over-Known (e ∷ es) c ks = rw (hand_over, mark-Known (e ∷ es) c ks) refl

All-strays :
    (P : AtlasEntity → Type 0) (u : Uuids) (inside : Vec3 → Bool) (marked : List Uuid)
    (es : List AtlasEntity)
    → ((e : AtlasEntity) → Member e es → P e)
    → All P (strays u inside marked es)
All-strays P u inside marked [] h = tt
All-strays P u inside marked (e ∷ es) h =
    let rest = All-strays P u inside marked es (λ x m. h x (inr m)) in
    elim (Bool-cases (contains u (id_of e) marked || inside e.base.transform.position)) [
      | inl stays ↦ rw stays rest
      | inr strays ↦ rw strays (h e (inl refl), rest)
    ]

module _ (u : Uuids) (inside : Vec3 → Bool) (entity_id client_id : Uuid) (l : EntityLedger)
    (c : TransferCoordinator) where
  runs :
      Ordered u l.entities
      → round u (some inside) entity_id client_id l c
        ≡ some (
          (sweep u (some inside) l).1,
          filed_for u l entity_id client_id (strays u inside l.marked l.entities) c,
        )
  unfolding round sweep
  runs o =
      ap (λ xs. hand_over u entity_id client_id xs (sweep u (some inside) l).1 c)
        (sweep_finds u inside l o)
      ∙ hand_over-Known u (sweep u (some inside) l).1 entity_id client_id
          (strays u inside l.marked l.entities) c
          (All-strays _ u inside l.marked l.entities (λ e m. find_known u l.entities e o m))

  -- The keys of the ledger ascend, and no transfer stands yet under the two new ids. Then a round under a
  -- bound runs into no failed assertion. The entities stay; marked are those that were, and those
  -- outside the bound that were not. Under the new id of each kind the coordinator has then, in its
  -- first stage and in the order of the map, the ids of these entities, of the clients for a client
  -- transfer and of the others for an entity transfer, or nothing where there are none; and under
  -- every other id it has what it had.
  pub round_lem :
      Ordered u l.entities
      → find_transfer u entity_id c.entity_transfers ≡ none
      → find_transfer u client_id c.client_transfers ≡ none
      → let found = strays u inside l.marked l.entities in
        (after : EntityLedger) × (filed : TransferCoordinator) × (round u
            (some inside)
            entity_id
            client_id
            l
            c
          ≡ some (after, filed))
        × (after.entities ≡ l.entities)
        × ((k : Uuid)
            → contains u k after.marked ≡ (contains u k l.marked || contains u k (map id_of found)))
        × ((k : Uuid)
            → find_transfer u k filed.entity_transfers ≡ (
                if u.same entity_id k
                then gathered prepare entity_id (map id_of (others found))
                else find_transfer u k c.entity_transfers))
        × ((k : Uuid)
            → find_transfer u k filed.client_transfers ≡ (
                if u.same client_id k
                then gathered shard_prepare client_id (map id_of (clients found))
                else find_transfer u k c.client_transfers))
  unfolding sweep
  round_lem o new_entity new_client =
      let found = strays u inside l.marked l.entities in
      (
        (sweep u (some inside) l).1,
        filed_for u l entity_id client_id found c,
        runs o,
        refl,
        λ k.
            contains-sweep_loop u inside k l.entities l.marked
            ∙ ap (λ xs. contains u k l.marked || contains u k xs) (sweep_finds u inside l o),
        λ k.
            find-filed u prepare entity_id k (map id_of (others found)) c.entity_transfers
              new_entity,
        λ k.
            find-filed u shard_prepare client_id k (map id_of (clients found)) c.client_transfers
              new_client,
      )
