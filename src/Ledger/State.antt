-- ===== src/Ledger/State.antt =====
-- The state and the operations of `EntityLedger`. `entities` is a `flat_map`, which Boost documents as
-- a vector sorted by key; `entitiesMarkedForTransfer` is a set, here the list of its members.
use atlas_net.Prelude.{
  Bool, true, false, List, [], ◌∷◌, map, Option, some, none, if◌then◌else◌, ◌==◌,
}
use atlas_net.Bytes.Writer.{Vec3}
use atlas_net.Entity.Full.{AtlasEntity}
use atlas_net.Packets.LocalEntityList.{
  LocalEntityListRequestPacket, full, minimal, e_query, e_response,
}
use atlas_net.Ledger.Uuids.{Uuid, Uuids}

pub record EntityLedger : Type 0 where
  pub entities : List AtlasEntity
  pub marked : List Uuid

abbrev pub id_of : AtlasEntity → Uuid
id_of e = e.base.entity_id

-- `flat_map::find`: the search stops at the first key that is not less.
unfoldable pub find : Uuids → Uuid → List AtlasEntity → Option AtlasEntity
find u id [] = none
find u id (x ∷ xs) =
    let rest = find u id xs in
    if u.less (id_of x) id then rest else if u.less id (id_of x) then none else some x

-- `flat_map::insert`: a key that is there is left alone.
unfoldable pub insert : Uuids → AtlasEntity → List AtlasEntity → List AtlasEntity
insert u e [] = e ∷ []
insert u e (x ∷ xs) =
    let rest = insert u e xs in
    if u.less (id_of x) (id_of e)
    then x ∷ rest
    else if u.less (id_of e) (id_of x)
    then e ∷ x ∷ xs
    else x ∷ xs

-- `none` is an assertion that fails.
unfoldable pub register_new_entity : Uuids → AtlasEntity → EntityLedger → Option EntityLedger
register_new_entity u e l = elim (find u (id_of e) l.entities) [
  | none ↦ some (record l { entities = insert u e l.entities })
  | some _ ↦ none
]

unfoldable pub is_entity_client : Uuids → Uuid → EntityLedger → Option Bool
is_entity_client u id l = elim (find u id l.entities) [
  | none ↦ none
  | some e ↦ some e.base.is_client
]

-- The packet that `OnLocalEntityListRequest` sends back.
unfoldable pub answer : LocalEntityListRequestPacket → EntityLedger → LocalEntityListRequestPacket
answer p l = record {
  status = e_response;
  include_metadata = p.include_metadata;
  response = if p.include_metadata then full l.entities else minimal (map (λ e. e.base) l.entities);
}

unfoldable pub contains : Uuids → Uuid → List Uuid → Bool
contains u id [] = false
contains u id (x ∷ xs) = if u.same x id then true else contains u id xs

-- The handler that `Init` subscribes: what it sends back, `none` for nothing.
unfoldable pub on_list_packet :
    LocalEntityListRequestPacket → EntityLedger → Option LocalEntityListRequestPacket
on_list_packet p l = if p.status == e_query then some (answer p l) else none

-- One round of `LoopThreadEntry`, over the entities: the ids found out of bounds, behind `newly`,
-- and the marked ones. `inside` is `Contains` of the claimed bound.
unfoldable pub sweep_loop :
    Uuids → (Vec3 → Bool) → List AtlasEntity → List Uuid → List Uuid × List Uuid
sweep_loop u inside [] marked = ([], marked)
sweep_loop u inside (e ∷ es) marked =
    let skipped = sweep_loop u inside es marked in
    let found = sweep_loop u inside es (id_of e ∷ marked) in
    if contains u (id_of e) marked
    then skipped
    else if inside e.base.transform.position
    then skipped
    else (id_of e ∷ found.0, found.1)

-- Without a bound the round does nothing.
unfoldable pub sweep : Uuids → Option (Vec3 → Bool) → EntityLedger → List Uuid × EntityLedger
sweep u none l = ([], l)
sweep u (some inside) l =
    let r = sweep_loop u inside l.entities l.marked in (r.0, record l { marked = r.1 })
