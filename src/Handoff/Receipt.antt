-- ===== src/Handoff/Receipt.antt =====
-- A handoff on its way from the packet manager of one shard, over two Interlinks and the packet
-- registry, to the mailbox of another.
use atlas_net.Prelude.{
  ℕ, ◌^◌, ◌<◌, ◌≡◌, refl, sym, ap, ◌∙◌, inl, inr, Bool, true, false, List, [], ◌∷◌, some, length,
  Bool-cases, if◌then◌else◌,
}
use atlas_net.Bytes.Writer
use atlas_net.Entity.Full.{AtlasEntity}
use atlas_net.Network.Identity.{NetworkIdentity}
use atlas_net.Packets.GenericEntity.{GenericEntityPacket, IsGeneric, k_protocol_version}
use atlas_net.Packets.Packet
use atlas_net.Packets.Packet.{Packet, Kind, generic_entity, generic_entity_body, type_id, serialize}
use atlas_net.Packets.Registered.{Occurs, register_all}
use atlas_net.Dispatch.Manager.{PacketManager, entries}
use atlas_net.Dispatch.Table.{IsManager}
use atlas_net.Dispatch.Delivery.{call_all, alive_ids}
use atlas_net.Interlink.Run.{Run, done, ◌>>=◌, bind-done}
use atlas_net.Interlink.Connection.{Connection, is_connected}
use atlas_net.Interlink.Table.{find_handle, find_target}
use atlas_net.Interlink.State.{Interlink, e_reliable_batched, send, call}
use atlas_net.Interlink.Send.{Lookup, send_message}
use atlas_net.Interlink.Receive.{receive_messages}
use atlas_net.Interlink.Delivery.{onlooker, delivered}
use atlas_net.Ledger.Uuids.{Uuid, Uuids}
use atlas_net.Ledger.State.{id_of}
use atlas_net.Handoff.Maps.{Map, lookup, assign, same-eq}
use atlas_net.Handoff.Keys.{lookup-assign_self, lookup-assign_other}
use atlas_net.Handoff.Database.{Database, Text}
use atlas_net.Handoff.Mailbox.{PendingIncomingHandoff, queue_incoming}
use atlas_net.Handoff.Wire.{
  HandoffPacketManager, WireCall, sent, on_peer_activity, on_incoming_handoff, send_entity_handoff,
  on_generic_entity_packet,
}
use atlas_net.Handoff.Runtime.{
  Simulator, Shard, on_incoming_handoff_entity_at_time_us, run_wire_call, run_wire_calls,
  handle_packet,
}

-- The packet of a handoff that a shard starts.
abbrev pub packet_of : HandoffPacketManager → AtlasEntity → ℕ → ℕ → GenericEntityPacket
packet_of a e time now_ms = record {
  sender = a.self_identity;
  entity = e;
  protocol_version = k_protocol_version;
  transfer_tick = time;
  sent_at_ms = now_ms;
}

abbrev pub whole : GenericEntityPacket → Packet
whole p = record { packet_type = type_id generic_entity; body = generic_entity_body p }

module _ (same : NetworkIdentity → NetworkIdentity → Bool) where
  -- The calls of `Interlink::SendMessage`, which are reliable and batched.
  unfoldable pub run_sends : Lookup → List WireCall → Interlink → Run Interlink
  run_sends ask [] s = done s
  run_sends ask (sent target p ∷ cs) s =
      send_message same ask target (whole p, e_reliable_batched) s >>= run_sends ask cs
  run_sends ask (_ ∷ cs) s = run_sends ask cs s

  module _ (u : Uuids) (sim : Simulator u) (text : Text → Text) (db : Database) where
    -- What the packet manager's subscription does with a packet.
    abbrev pub act :
        ℕ → Packet → NetworkIdentity → ℕ → Shard u sim same text db → Shard u sim same text db
    act now p sender id w = handle_packet u sim same text db now p.body w

    lookup-assign :
        (id k : Uuid) (v : PendingIncomingHandoff) (m : Map PendingIncomingHandoff)
        → lookup u k (assign u id v m) ≡ (if u.same id k then some v else lookup u k m)
    lookup-assign id k v m = elim (Bool-cases (u.same id k)) [
      | inl is ↦ rw is (
          ap (λ x. lookup u x (assign u id v m)) (sym (same-eq u id k is))
          ∙ lookup-assign_self u id v m)
      | inr apart ↦ rw apart (lookup-assign_other u id k v m apart)
    ]

    module _ (a : HandoffPacketManager) (e : AtlasEntity) (time now_ms : ℕ)
        (w : Shard u sim same text db) (open_b : w.packets.initialized ≡ true)
        (activity : w.packets.activity_set ≡ true) (incoming : w.packets.incoming_set ≡ true)
        (apart : same a.self_identity w.packets.self_identity ≡ false)
        (on : w.runtime.initialized ≡ true) where
      abbrev got : PendingIncomingHandoff
      got = record { entity = e; sender = a.self_identity; transfer_time_us = time }

      two_calls :
          on_generic_entity_packet same (packet_of a e time now_ms) w.packets
          ≡ on_peer_activity a.self_identity ∷ on_incoming_handoff e a.self_identity time ∷ []
      unfolding on_generic_entity_packet
      two_calls = rw (on_generic_entity_packet, open_b, apart, activity, incoming) refl

      pending :
          (now id : ℕ) (k : Uuid)
          → lookup u k
              (act now
                (whole (packet_of a e time now_ms))
                a.self_identity
                id
                w).runtime.mailbox.incoming
            ≡ (if u.same (id_of e) k then some got else lookup u k w.runtime.mailbox.incoming)
      unfolding handle_packet run_wire_calls run_wire_call on_incoming_handoff_entity_at_time_us
          queue_incoming
      pending now id k =
          rw (two_calls, handle_packet, run_wire_calls, on_incoming_handoff_entity_at_time_us, on)
            (lookup-assign (id_of e) k got w.runtime.mailbox.incoming)

      module _ (on_a : a.initialized ≡ true) (ks : List Kind) (o : Occurs generic_entity ks)
          (fits : IsGeneric (packet_of a e time now_ms))
          (valid : Packet.validate_data (whole (packet_of a e time now_ms)).body ≡ true)
          (small : length (serialize (whole (packet_of a e time now_ms)) Writer.new).buf
            < 2 ^ 64) where
        sends :
            (ask : Lookup) (target : NetworkIdentity) (s t : Interlink)
            → send_message same ask target (whole (packet_of a e time now_ms), e_reliable_batched) s
              ≡ done t
            → run_sends ask (send_entity_handoff target e time now_ms a) s ≡ done t
        unfolding send_entity_handoff run_sends
        sends ask target s t h = rw (send_entity_handoff, on_a, run_sends) (bind-done _ t h)

        -- Shard `a`, whose packet manager and Interlink are initialised, starts a handoff to the target of a
        -- connection that is there; its identity is not the same as the receiver's, the class of the
        -- packet is registered with the receiver, the packet validates, its members fit their types and
        -- its bytes are fewer than 2 ^ 64. The receiver's runtime and packet manager are initialised, both
        -- callbacks are set, the vectors of its callbacks are ordered by id without repetition, and one
        -- live entry stands under the packet's type. Then `SendEntityHandoff` makes the transport send
        -- some bytes, once; and when the receiver gets these bytes over a connection that it knows, then
        -- behind `ReceiveMessages` the handoff is pending in its mailbox under the entity's number, with
        -- `a` as sender and the time, and under every other number what was pending before.
        pub handoff_received :
            (ask : Lookup) (target : NetworkIdentity) (s : Interlink) (c : Connection) (h : ℕ)
            (cs : List Connection) (g : ℕ) (d : Connection) (pm : PacketManager) (now id : ℕ)
            → s.is_init ≡ true
            → find_target same target s.connections ≡ some c
            → is_connected c.state ≡ true
            → c.steam ≡ some h
            → find_handle g cs ≡ some d
            → IsManager pm
            → alive_ids (entries (type_id generic_entity) pm.callbacks) ≡ id ∷ []
            → (bytes : List ℕ) × (after : Shard u sim same text db) × (run_sends ask
                  (send_entity_handoff target e time now_ms a)
                  s
                ≡ done (call (send h bytes e_reliable_batched) s))
              × (receive_messages
                    (register_all ks [])
                    (onlooker (act now))
                    cs
                    ((g, bytes) ∷ [])
                    (pm, w)
                  ≡ done (pm, after))
              × ((k : Uuid)
                  → lookup u k after.runtime.mailbox.incoming ≡ (
                      if u.same (id_of e) k
                      then some
                          (record { entity = e; sender = a.self_identity; transfer_time_us = time })
                      else lookup u k w.runtime.mailbox.incoming))
        handoff_received ask target s c h cs g d pm now id up there_c there set knows ordered one =
            let p = whole (packet_of a e time now_ms) in
            let (bytes, sent_eq, got_eq) =
              delivered (act now) ks p refl o fits valid small same ask target e_reliable_batched s
                c h cs g d pm w up there_c there set knows ordered in
            (
              bytes,
              act now p d.target id w,
              sends ask target s _ sent_eq,
              got_eq ∙ ap (λ ids. done (pm, call_all (act now p d.target) ids w)) one,
              pending now id,
            )
