-- ===== src/Ledger/Request.antt =====
-- The answer of `EntityLedger::OnLocalEntityListRequest` to a query.
use atlas_net.Prelude.{
  ◌^◌, ◌<◌, ◌≡◌, refl, Bool, true, false, List, [], ◌∷◌, map, length, All, Bool-cases,
  if◌then◌else◌, some, arith, inl, inr,
}
use atlas_net.Bytes.Codec.{RoundTrips}
use atlas_net.Entity.Minimal.{IsMinimal}
use atlas_net.Entity.Full.{AtlasEntity, IsEntity}
use atlas_net.Packets.LocalEntityList
use atlas_net.Packets.LocalEntityList.{
  LocalEntityListRequestPacket, Response, IsResponse, IsListPacket, RoundTrips-list, full, minimal,
  holds_full, e_query, e_response,
}
use atlas_net.Ledger.State.{EntityLedger, answer, on_list_packet}

length-map_base : (es : List AtlasEntity) → length (map (λ e. e.base) es) ≡ length es
length-map_base [] = refl
length-map_base (e ∷ es) = omega (arith, length-map_base es)

All-IsMinimal : (es : List AtlasEntity) → All IsEntity es → All IsMinimal (map (λ e. e.base) es)
All-IsMinimal [] h = tt
All-IsMinimal (e ∷ es) h = (h.0.base_fits, All-IsMinimal es h.1)

chosen : Bool → List AtlasEntity → Response
chosen flag es = if flag then full es else minimal (map (λ e. e.base) es)

module _ (es : List AtlasEntity) (fit : All IsEntity es) (few : length es < 2 ^ 31) where
  IsResponse-chosen : (flag : Bool) → IsResponse (chosen flag es)
  unfolding chosen
  IsResponse-chosen true = (few, fit)
  IsResponse-chosen false = (omega (arith, length-map_base es), All-IsMinimal es fit)

holds_full-chosen : (flag : Bool) (es : List AtlasEntity) → flag ≡ holds_full (chosen flag es)
unfolding chosen
holds_full-chosen true es = refl
holds_full-chosen false es = refl

module _ (p : LocalEntityListRequestPacket) (l : EntityLedger) (fit : All IsEntity l.entities)
    (few : length l.entities < 2 ^ 31) where
  answer-IsListPacket : IsListPacket (answer p l)
  unfolding answer chosen
  answer-IsListPacket = record {
    status_fits = omega arith;
    response_fits = IsResponse-chosen l.entities fit few p.include_metadata;
    agrees = holds_full-chosen p.include_metadata l.entities;
  }

  validate-answer : LocalEntityList.validate_data (answer p l) ≡ true
  unfolding LocalEntityList.validate_data answer
  validate-answer = elim (Bool-cases p.include_metadata) [
    | inl whole ↦ rw whole refl
    | inr bare ↦ rw bare refl
  ]

  -- Where the entities of the ledger fit their types and are fewer than 2 ^ 31, the handler sends an
  -- answer to every query, with metadata or without; the answer validates, its status is that of a
  -- response, and `SerializeData` appends bytes from which `DeserializeData` reads the answer back
  -- and stops behind them, whatever follows.
  pub query_answered :
      p.status ≡ e_query
      → (a : LocalEntityListRequestPacket) × (on_list_packet p l ≡ some a)
        × (LocalEntityList.validate_data a ≡ true)
        × (a.status ≡ e_response)
        × RoundTrips (LocalEntityList.serialize_data a) LocalEntityList.deserialize_data a
  unfolding on_list_packet answer
  query_answered q = (
    answer p l,
    rw (on_list_packet, q) refl,
    validate-answer,
    refl,
    RoundTrips-list (answer p l) answer-IsListPacket,
  )
