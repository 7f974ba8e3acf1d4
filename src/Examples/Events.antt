-- ===== src/Examples/Events.antt =====
-- A client that connects: the proxy dispatches the event, and another process has two callbacks for it.
use atlas_net.Prelude.{◌≡◌, refl, true, false, [], ◌∷◌, arith}
use atlas_net.Bytes.Writer
use atlas_net.Network.Identity
use atlas_net.Interlink.Run.{done}
use atlas_net.Packets.Hash.{hash_string, hash_loop}
use atlas_net.Events.Event
use atlas_net.Events.Event.{IEvent, client_connect_event, client_connect, log, event_name}
use atlas_net.Events.Registry.{hash_name}
use atlas_net.Events.Registered.{register_all}
use atlas_net.Events.System.{EventSystem, subscribe, dispatch, on_message}
use atlas_net.Events.Delivery.{dispatch-on_message}
use atlas_net.Examples.Ledger.{uuid_from}
use atlas_net.Examples.Handoff.{west}

abbrev connected : IEvent
connected =
    client_connect_event
      (record { ip = record { ip = 0x7f000001; port = 25564 }; id = uuid_from 9 }) west

abbrev publisher : EventSystem
publisher = record { has_subscription = false; event_system_init = true; event_subscriptions = [] }

abbrev subscriber : EventSystem
subscriber = record {
  has_subscription = true;
  event_system_init = true;
  event_subscriptions = (hash_name (event_name client_connect), 4 ∷ []) ∷ [];
}

dispatch-on_message_example :
    (t : EventSystem) × (subscribe
        (register_all (client_connect ∷ log ∷ []) [])
        client_connect
        5
        subscriber
      ≡ done (event_name client_connect, t))
    × (dispatch (register_all (log ∷ client_connect ∷ []) []) connected publisher
        ≡ done (event_name client_connect, (Event.serialize connected Writer.new).buf))
    × (on_message
          (register_all (client_connect ∷ log ∷ []) [])
          (event_name client_connect)
          (Event.serialize connected Writer.new).buf
          t
        ≡ done ((4, connected) ∷ (5, connected) ∷ []))
unfolding Event.serialize hash_name hash_string hash_loop event_name Identity.serialize Writer.uuid
    Writer.write Writer.write_scalar32 Writer.push_be Writer.u8 Event.serialize_client
    Event.serialize_ip Writer.u32 Writer.u16 Writer.new
dispatch-on_message_example =
    dispatch-on_message connected (log ∷ client_connect ∷ []) (client_connect ∷ log ∷ []) publisher
      subscriber 5 refl refl refl refl (omega arith) (omega arith)
