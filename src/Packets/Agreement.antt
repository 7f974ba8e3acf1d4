-- ===== src/Packets/Agreement.antt =====
-- The `DeserializeData` methods of the packets on bytes that nobody has vouched for.
use atlas_net.Prelude.{ℕ, ◌≡◌, ◌↔◌, ◌⊎◌, Bool, true, false, not, List, Option, some, none, arith}
use atlas_net.Bytes.Result.{ok}
use atlas_net.Bytes.Reader
use atlas_net.Bytes.Reader.{ByteReader, ◌>>=◌, return}
use atlas_net.Bytes.Codec.{>>=-eq-ok}
use atlas_net.Bytes.Sequence.{read_sequence}
use atlas_net.Entity.Minimal.{to_bool}
use atlas_net.Network.Identity
use atlas_net.Packets.EntityTransfer
use atlas_net.Packets.EntityTransfer.{
  EntityTransferPacket, TransferStage, prepare, ready, commit, complete, StageData,
}
use atlas_net.Packets.ClientTransfer
use atlas_net.Packets.ClientTransfer.{ClientTransferPacket}
use atlas_net.Packets.ClientTransfer.RoundTrip
use atlas_net.Packets.LocalEntityList
use atlas_net.Packets.LocalEntityList.{
  LocalEntityListRequestPacket, Response, full, minimal, holds_full, holds_minimal, e_query,
  e_response,
}

entity_stage :
    (stage : TransferStage) (r t : ByteReader) (d : StageData)
    → EntityTransfer.deserialize_stage stage r ≡ ok (d, t)
    → stage ≡ EntityTransfer.stage_of d
unfolding EntityTransfer.deserialize_stage
entity_stage prepare r t d h = ground arith
entity_stage _ r t d h = ground arith

entity_rest :
    (id : List ℕ) (o : Option TransferStage) (r t : ByteReader) (p : EntityTransferPacket)
    → EntityTransfer.deserialize_rest id o r ≡ ok (p, t)
    → p.stage ≡ EntityTransfer.stage_of p.stage_data
unfolding EntityTransfer.deserialize_rest
entity_rest id none r t p h = cc
entity_rest id (some stage) r t p h =
    let (d, s, e, g) =
      >>=-eq-ok (EntityTransfer.deserialize_stage stage)
        (λ d. return (record { transfer_id = id; stage = stage; stage_data = d })) r t p h in
    ground (arith, entity_stage stage r s d e, g)

-- An entity transfer that `DeserializeData` returns, from any reader, has the stage of its data.
pub entity_transfer_agrees :
    (r t : ByteReader) (p : EntityTransferPacket)
    → EntityTransfer.deserialize_data r ≡ ok (p, t)
    → p.stage ≡ EntityTransfer.stage_of p.stage_data
unfolding EntityTransfer.deserialize_data
entity_transfer_agrees r t p h =
    let (id, s, _, g) =
      >>=-eq-ok Reader.uuid
        (λ id. Reader.read_scalar32 >>= λ n.
          EntityTransfer.deserialize_rest id (EntityTransfer.of_int n))
        r t p h in
    let (n, u, _, k) =
      >>=-eq-ok Reader.read_scalar32
        (λ n. EntityTransfer.deserialize_rest id (EntityTransfer.of_int n)) s t p g in
    entity_rest id (EntityTransfer.of_int n) u t p k

client_stage :
    (stage : ClientTransfer.MsgStage) (r t : ByteReader) (d : ClientTransfer.StageData)
    → ClientTransfer.deserialize_stage stage r ≡ ok (d, t)
    → stage ≡ RoundTrip.stage_of d
unfolding ClientTransfer.deserialize_stage
client_stage ClientTransfer.shard_prepare r t d h = ground arith
client_stage ClientTransfer.proxy_request_switch r t d h =
    let (ids, s, _, g) =
      >>=-eq-ok (read_sequence Reader.uuid)
        (λ ids.
          Identity.deserialize >>= λ owner. return (ClientTransfer.request_switch_data ids owner))
        r t d h in
    ground (arith, g)
client_stage _ r t d h = ground arith

client_rest :
    (id : List ℕ) (o : Option ClientTransfer.MsgStage) (r t : ByteReader) (p : ClientTransferPacket)
    → ClientTransfer.deserialize_rest id o r ≡ ok (p, t)
    → p.stage ≡ RoundTrip.stage_of p.stage_data
unfolding ClientTransfer.deserialize_rest
client_rest id none r t p h = cc
client_rest id (some stage) r t p h =
    let (d, s, e, g) =
      >>=-eq-ok (ClientTransfer.deserialize_stage stage)
        (λ d. return (record { transfer_id = id; stage = stage; stage_data = d })) r t p h in
    ground (arith, client_stage stage r s d e, g)

-- A client transfer that `DeserializeData` returns, from any reader, has the stage of its data.
pub client_transfer_agrees :
    (r t : ByteReader) (p : ClientTransferPacket)
    → ClientTransfer.deserialize_data r ≡ ok (p, t)
    → p.stage ≡ RoundTrip.stage_of p.stage_data
unfolding ClientTransfer.deserialize_data
client_transfer_agrees r t p h =
    let (id, s, _, g) =
      >>=-eq-ok Reader.uuid
        (λ id. Reader.read_scalar32 >>= λ n.
          ClientTransfer.deserialize_rest id (ClientTransfer.of_int n))
        r t p h in
    let (n, u, _, k) =
      >>=-eq-ok Reader.read_scalar32
        (λ n. ClientTransfer.deserialize_rest id (ClientTransfer.of_int n)) s t p g in
    client_rest id (ClientTransfer.of_int n) u t p k

response_agrees :
    (flag : Bool) (r t : ByteReader) (x : Response)
    → LocalEntityList.deserialize_response flag r ≡ ok (x, t)
    → (flag ≡ holds_full x) × (holds_minimal x ≡ not flag)
unfolding LocalEntityList.deserialize_response
response_agrees true r t x h = ground arith
response_agrees false r t x h = ground arith

validates :
    (p : LocalEntityListRequestPacket)
    → (p.include_metadata ≡ holds_full p.response)
      × (holds_minimal p.response ≡ not p.include_metadata)
    → (LocalEntityList.validate_data p ≡ true) ↔ ((p.status ≡ e_query) ⊎ (p.status ≡ e_response))
unfolding LocalEntityList.validate_data
validates p h = (λ v. ground arith, λ v. ground arith)

-- A list packet that `DeserializeData` returns, from any reader, validates exactly when its status is
-- one of the two.
pub list_validates :
    (r t : ByteReader) (p : LocalEntityListRequestPacket)
    → LocalEntityList.deserialize_data r ≡ ok (p, t)
    → (LocalEntityList.validate_data p ≡ true) ↔ ((p.status ≡ e_query) ⊎ (p.status ≡ e_response))
unfolding LocalEntityList.deserialize_data
list_validates r t p h =
    let (status, s, _, g) =
      >>=-eq-ok Reader.read_scalar32
        (λ status. Reader.i8 >>= λ flag.
          LocalEntityList.deserialize_response (to_bool flag) >>= λ x.
          return (record { status = status; include_metadata = to_bool flag; response = x }))
        r t p h in
    let (flag, u, _, k) =
      >>=-eq-ok Reader.i8
        (λ flag. LocalEntityList.deserialize_response (to_bool flag) >>= λ x.
          return (record { status = status; include_metadata = to_bool flag; response = x }))
        s t p g in
    let (x, v, e, l) =
      >>=-eq-ok (LocalEntityList.deserialize_response (to_bool flag))
        (λ x. return (record { status = status; include_metadata = to_bool flag; response = x })) u
        t p k in
    validates p (ground (arith, response_agrees (to_bool flag) u v x e, l))
