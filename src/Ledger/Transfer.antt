-- ===== src/Ledger/Transfer.antt =====
-- `TransferCoordinator::MarkEntitiesForTransfer`, and the round of `EntityLedger::LoopThreadEntry`
-- that calls it. Its thread, which only looks whether there are transfers, is not modelled.
use atlas_net.Prelude.{Bool, true, false, List, [], ◌∷◌, ◌++◌, Option, some, none, if◌then◌else◌}
use atlas_net.Bytes.Writer.{Vec3}
use atlas_net.Packets.EntityTransfer.{TransferStage, prepare}
use atlas_net.Packets.ClientTransfer.{MsgStage, shard_prepare}
use atlas_net.Ledger.Uuids.{Uuid, Uuids}
use atlas_net.Ledger.State.{EntityLedger, is_entity_client, sweep}

-- The two structs differ in the type of their stage.
pub record TransferData (Stage : Type 0) : Type 0 where
  pub id : Uuid
  pub stage : Stage
  pub entity_ids : List Uuid
  pub waiting_on_response : Bool
  pub started : Bool

pub record TransferCoordinator : Type 0 where
  pub entity_transfers : List (TransferData TransferStage)
  pub client_transfers : List (TransferData MsgStage)

-- `unordered_map::insert`: a key that is there is left alone. The order is forgotten by the source.
unfoldable pub insert_transfer :
    {S : Type 0} → Uuids → TransferData S → List (TransferData S) → List (TransferData S)
insert_transfer u d [] = d ∷ []
insert_transfer u d (x ∷ xs) =
    let rest = insert_transfer u d xs in if u.same x.id d.id then x ∷ xs else x ∷ rest

-- `emplace` value-initialises the struct, so its stage is the enumerator 0.
unfoldable pub start : {S : Type 0} → S → Uuid → Option (TransferData S) → TransferData S
start first id none = record {
  id = id;
  stage = first;
  entity_ids = [];
  waiting_on_response = false;
  started = false;
}
start first id (some d) = d

unfoldable pub push : {S : Type 0} → Uuid → TransferData S → TransferData S
push x d = record d { entity_ids = d.entity_ids ++ x ∷ [] }

abbrev pub Collected : Type 0
Collected = Option (TransferData TransferStage) × Option (TransferData MsgStage)

-- The loop over the ids; `entity_id` and `client_id` are what `UUIDGen::Gen` returns for the transfer
-- of each kind, and `none` is the failed assertion of `IsEntityClient`.
unfoldable pub collect :
    Uuids → EntityLedger → Uuid → Uuid → List Uuid → Collected → Option Collected
collect u l entity_id client_id [] c = some c
collect u l entity_id client_id (x ∷ xs) c = elim (is_entity_client u x l) [
  | none ↦ none
  | some true ↦
      collect u l entity_id client_id xs (c.0, some (push x (start shard_prepare client_id c.1)))
  | some false ↦
      collect u l entity_id client_id xs (some (push x (start prepare entity_id c.0)), c.1)
]

unfoldable pub insert_some :
    {S : Type 0} → Uuids → Option (TransferData S) → List (TransferData S) → List (TransferData S)
insert_some u none ts = ts
insert_some u (some d) ts = insert_transfer u d ts

unfoldable pub mark_entities_for_transfer :
    Uuids
    → EntityLedger
    → Uuid
    → Uuid
    → List Uuid
    → TransferCoordinator
    → Option TransferCoordinator
mark_entities_for_transfer u l entity_id client_id xs c =
    elim (collect u l entity_id client_id xs (none, none)) [
      | none ↦ none
      | some (ed, cd) ↦ some (record {
        entity_transfers = insert_some u ed c.entity_transfers;
        client_transfers = insert_some u cd c.client_transfers;
      })
    ]

-- `if (!EntitiesNewlyOutOfBounds.empty())`
unfoldable pub hand_over :
    Uuids
    → Uuid
    → Uuid
    → List Uuid
    → EntityLedger
    → TransferCoordinator
    → Option (EntityLedger × TransferCoordinator)
hand_over u entity_id client_id [] l c = some (l, c)
hand_over u entity_id client_id (x ∷ xs) l c =
    elim (mark_entities_for_transfer u l entity_id client_id (x ∷ xs) c) [
      | none ↦ none
      | some c' ↦ some (l, c')
    ]

-- One round of `LoopThreadEntry`.
unfoldable pub round :
    Uuids
    → Option (Vec3 → Bool)
    → Uuid
    → Uuid
    → EntityLedger
    → TransferCoordinator
    → Option (EntityLedger × TransferCoordinator)
round u bound entity_id client_id l c =
    let r = sweep u bound l in hand_over u entity_id client_id r.0 r.1 c
