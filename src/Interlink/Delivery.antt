-- ===== src/Interlink/Delivery.antt =====
-- `SendMessage` of one process and `ReceiveMessages` of another.
use atlas_net.Prelude.{ℕ, ◌<◌, ◌^◌, ◌≡◌, ap, ◌∙◌, Bool, true, List, [], ◌∷◌, length, some, none}
use atlas_net.Bytes.Writer
use atlas_net.Network.Identity.{NetworkIdentity}
use atlas_net.Packets.Packet.{Packet, Kind, kind_of, type_id, serialize, validate_data}
use atlas_net.Packets.Delivery.{IsBody}
use atlas_net.Packets.Registered.{Occurs, register_all, registered_delivery, validate_own}
use atlas_net.Dispatch.Manager.{PacketManager, entries, dispatch, returned, dangling}
use atlas_net.Dispatch.Table.{IsManager}
use atlas_net.Dispatch.Delivery.{outside, call_all, alive_ids, dispatch_alive}
use atlas_net.Bytes.Result.{ok, err}
use atlas_net.Interlink.Run.{done, threw, undefined_run, elim-some, bind-done}
use atlas_net.Interlink.Connection.{Connection, is_connected}
use atlas_net.Interlink.Table.{find_handle, find_target}
use atlas_net.Interlink.State.{Interlink, SendFlag, send, call}
use atlas_net.Interlink.Send.{Lookup, send_message}
use atlas_net.Interlink.Receive.{receive_message, receive_messages}
use atlas_net.Interlink.Flush.{send_message_sent}

module _ {ℓ} {W : Type ℓ} (act : Packet → NetworkIdentity → ℕ → W → W) where
  -- Callbacks that leave the manager alone.
  abbrev pub onlooker : Packet → NetworkIdentity → ℕ → PacketManager × W → PacketManager × W
  onlooker p sender = outside (act p sender)

  module _ (ks : List Kind) (p : Packet) (own : p.packet_type ≡ type_id (kind_of p.body))
      (o : Occurs (kind_of p.body) ks) (fits : IsBody p.body) (valid : validate_data p.body ≡ true)
      (small : length (serialize p Writer.new).buf < 2 ^ 64) where
    received :
        (cs : List Connection) (g : ℕ) (d : Connection) (pm : PacketManager) (w : W)
        → find_handle g cs ≡ some d
        → IsManager pm
        → receive_message (register_all ks []) onlooker cs (g, (serialize p Writer.new).buf) (pm, w)
          ≡ done (pm, call_all (act p d.target) (alive_ids (entries p.packet_type pm.callbacks)) w)
    unfolding receive_message
    received cs g d pm w known h =
        elim-some _ _ d known
        ∙ ap
            (λ r. elim r [
              | err e ↦ threw e
              | ok none ↦ undefined_run
              | ok (some q) ↦ elim (dispatch (onlooker q d.target) q.packet_type (pm, w)) [
                | returned t ↦ done t
                | dangling ↦ undefined_run
              ]
            ])
            (registered_delivery p own ks o fits valid small)
        ∙ ap (λ r. elim r [ returned t ↦ done t | dangling ↦ undefined_run ])
            (dispatch_alive (act p d.target) p.packet_type pm w h)

    pub delivered :
        (same : NetworkIdentity → NetworkIdentity → Bool) (lookup : Lookup) (who : NetworkIdentity)
        (flag : SendFlag) (s : Interlink) (c : Connection) (h : ℕ) (cs : List Connection) (g : ℕ)
        (d : Connection) (pm : PacketManager) (w : W)
        → s.is_init ≡ true
        → find_target same who s.connections ≡ some c
        → is_connected c.state ≡ true
        → c.steam ≡ some h
        → find_handle g cs ≡ some d
        → IsManager pm
        → (bytes : List ℕ) × (send_message same lookup who (p, flag) s
            ≡ done (call (send h bytes flag) s))
          × (receive_messages (register_all ks []) onlooker cs ((g, bytes) ∷ []) (pm, w)
              ≡ done (
                pm,
                call_all (act p d.target) (alive_ids (entries p.packet_type pm.callbacks)) w,
              ))
    unfolding receive_messages
    delivered same lookup who flag s c h cs g d pm w up known there set knows ordered = (
      (serialize p Writer.new).buf,
      send_message_sent same lookup who c h there set (p, flag) s up known
          (validate_own p own valid),
      bind-done _ _ (received cs g d pm w knows ordered),
    )
