-- ===== src/Events/Event.antt =====
-- The events of AtlasNet/lib/Native/Events/Events, with `Client` of AtlasNet/lib/Native/Client/Client.hpp and
-- `IPAddress` of AtlasNet/lib/Native/Network/IPAddress.hpp, which wraps an address of the transport.
use atlas_net.Prelude.{ℕ, zero, suc, ◌^◌, ◌<◌, refl, List, length, arith}
use atlas_net.Bytes.Result.{err, not_implemented}
use atlas_net.Bytes.Integers.{RoundTrips-u8, RoundTrips-u16, RoundTrips-be}
use atlas_net.Bytes.Writer
use atlas_net.Bytes.Writer.{Write}
use atlas_net.Bytes.Reader
use atlas_net.Bytes.Reader.{Read, ◌>>=◌, return}
use atlas_net.Bytes.Codec.{RoundTrips, RoundTrips-bind, RoundTrips-map}
use atlas_net.Bytes.Blobs.{RoundTrips-uuid, RoundTrips-str}
use atlas_net.Packets.Hash.{codes}
use atlas_net.Entity.Minimal.{IsUuid}
use atlas_net.Network.Identity
use atlas_net.Network.Identity.{NetworkIdentity, IsIdentity, RoundTrips-identity}

-- An address that is IPv4. The source fails an assertion where one that is not is written.
pub record IpAddress : Type 0 where
  pub ip : ℕ
  pub port : ℕ

unfoldable pub serialize_ip : IpAddress → Write
serialize_ip a w = Writer.u32 a.ip (Writer.u16 a.port (Writer.u8 1 w))

-- `not_implemented` is the assertion that fails.
unfoldable pub read_ipv4 : ℕ → ℕ → Read IpAddress
read_ipv4 zero port r = err not_implemented
read_ipv4 (suc flag) port r = (do ip ← Reader.u32; return (record { ip = ip; port = port })) r

unfoldable pub deserialize_ip : Read IpAddress
deserialize_ip = do flag ← Reader.u8; port ← Reader.u16; read_ipv4 flag port

pub record IsAddress (a : IpAddress) : Type 0 where
  pub ip_fits : a.ip < 2 ^ 32
  pub port_fits : a.port < 2 ^ 16

RoundTrips-ip : (a : IpAddress) → IsAddress a → RoundTrips (serialize_ip a) deserialize_ip a
unfolding serialize_ip deserialize_ip read_ipv4 Writer.u32 Reader.u32
RoundTrips-ip a h = RoundTrips-bind _ _ _ _ 1 a (RoundTrips-u8 1 (omega arith)) (
    RoundTrips-bind _ _ _ _ a.port a (RoundTrips-u16 a.port h.port_fits)
      (RoundTrips-map _ _ _ a.ip a refl (RoundTrips-be 4 a.ip h.ip_fits)))

pub data EventKind : Type 0 where
  client_connect : EventKind
  log : EventKind

-- The names that ATLASNET_REGISTER_EVENT gives.
unfoldable pub event_name : EventKind → List ℕ
event_name client_connect = codes "ClientConnectEvent"
event_name log = codes "LogEvent"

pub record Client : Type 0 where
  pub ip : IpAddress
  pub id : List ℕ

unfoldable pub serialize_client : Client → Write
serialize_client c w = Writer.uuid c.id (serialize_ip c.ip w)

unfoldable pub deserialize_client : Read Client
deserialize_client = do ip ← deserialize_ip; id ← Reader.uuid; return (record { ip = ip; id = id })

pub RoundTrips-client :
    (c : Client)
    → IsAddress c.ip
    → IsUuid c.id
    → RoundTrips (serialize_client c) deserialize_client c
unfolding serialize_client deserialize_client
RoundTrips-client c fits h =
    RoundTrips-bind _ _ _ _ c.ip c (RoundTrips-ip c.ip fits)
      (RoundTrips-map _ _ _ c.id c refl (RoundTrips-uuid c.id h))

-- `IEvent`, with the members of its two classes.
pub data IEvent : Type 0 where
  client_connect_event : Client → NetworkIdentity → IEvent
  log_event : List ℕ → IEvent

abbrev pub kind_of : IEvent → EventKind
kind_of (client_connect_event c proxy) = client_connect
kind_of (log_event message) = log

unfoldable pub serialize : IEvent → Write
serialize (client_connect_event c proxy) w = Identity.serialize proxy (serialize_client c w)
serialize (log_event message) w = Writer.str message w

unfoldable pub deserialize : EventKind → Read (IEvent)
deserialize client_connect = do
  c ← deserialize_client
  proxy ← Identity.deserialize
  return (client_connect_event c proxy)
deserialize log = do message ← Reader.str; return (log_event message)

-- The members fit their types.
abbrev pub IsEvent : IEvent → Type 0
IsEvent (client_connect_event c proxy) = IsAddress c.ip × IsUuid c.id × IsIdentity proxy
IsEvent (log_event message) = length message < 2 ^ 32

pub RoundTrips-event :
    (e : IEvent) → IsEvent e → RoundTrips (serialize e) (deserialize (kind_of e)) e
unfolding serialize deserialize
RoundTrips-event (client_connect_event c proxy) h =
    RoundTrips-bind _ _ _ _ c (client_connect_event c proxy) (RoundTrips-client c h.0 h.1) (
      RoundTrips-map _ _ _ proxy (client_connect_event c proxy) refl
        (RoundTrips-identity proxy h.2))
RoundTrips-event (log_event message) h =
    RoundTrips-map _ _ _ message (log_event message) refl (RoundTrips-str message h)
