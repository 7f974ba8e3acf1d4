-- ===== src/Interlink/Receive.antt =====
-- `ReceiveMessages`: the packets that have come in, each made into an object and dispatched.
use atlas_net.Prelude.{ℕ, List, [], ◌∷◌, some, none}
use atlas_net.Bytes.Result.{ok, err}
use atlas_net.Network.Identity.{NetworkIdentity}
use atlas_net.Packets.Packet.{Packet, Registry, create_from_bytes}
use atlas_net.Dispatch.Manager.{PacketManager, dispatch, returned, dangling}
use atlas_net.Interlink.Run.{Run, done, threw, undefined_run, ◌>>=◌}
use atlas_net.Interlink.Connection.{Connection}
use atlas_net.Interlink.Table.{find_handle}

-- What the callback of an entry does with a packet and its sender.
abbrev pub Callback {ℓ} : Type ℓ → Type ℓ
Callback W = Packet → NetworkIdentity → ℕ → PacketManager × W → PacketManager × W

module _ {ℓ} {W : Type ℓ} (reg : Registry) (callback : Callback W) where
  -- The connection is dereferenced without a test, and so is the packet. (An unknown type fails an
  -- assertion of `Create` before, where assertions are on.)
  unfoldable pub receive_message :
      List Connection → ℕ × List ℕ → PacketManager × W → Run (PacketManager × W)
  receive_message cs msg s = elim (find_handle msg.0 cs) [
    | none ↦ undefined_run
    | some c ↦ elim (create_from_bytes reg msg.1) [
      | err e ↦ threw e
      | ok none ↦ undefined_run
      | ok (some p) ↦ elim (dispatch (callback p c.target) p.packet_type s) [
        | returned t ↦ done t
        | dangling ↦ undefined_run
      ]
    ]
  ]

  unfoldable pub receive_messages :
      List Connection → List (ℕ × List ℕ) → PacketManager × W → Run (PacketManager × W)
  receive_messages cs [] s = done s
  receive_messages cs (m ∷ ms) s = receive_message cs m s >>= receive_messages cs ms
