-- ===== src/Examples/Interlink.antt =====
-- A shard that is connected to the watch dog under handle 5, with packets on the way.
use atlas_net.Prelude.{
  ℕ, ◌≡◌, ◌⊎◌, ◌≤◌, inr, refl, Bool, true, false, List, [], ◌∷◌, ◌++◌, map, Option, some, none,
}
use atlas_net.Network.Identity.{NetworkIdentity, make_id_watch_dog, is_internal, is_nil, e_shard}
use atlas_net.Network.Names.{
  same, same_refl, same_both, to_string, nuke_string, trim_end, trim_start, visible_only, keeps,
  is_space, enum_to_string,
}
use atlas_net.Packets.ClientIdAssign
use atlas_net.Packets.Packet
use atlas_net.Packets.Packet.{Packet, client_id_assign_body, serialize, validate}
use atlas_net.Interlink.Run.{done, undefined_run}
use atlas_net.Interlink.Connection.{
  Connection, Address, ConnectionState, connecting, pre_connecting, connected, internal, external,
  make, set_new_state, is_connected, is_pre_connecting, is_connecting,
}
use atlas_net.Interlink.Table.{has_handle, find_handle, find_target, modify_handle}
use atlas_net.Interlink.State.{
  Interlink, Waiting, e_reliable_now, queue_of, queue_erase, set_poll_group,
}
use atlas_net.Interlink.Send.{
  Lookup, establish_connection_at_ip, insert, under_way, establish_connection_to,
}
use atlas_net.Interlink.Callbacks.{callback_on_connected}
use atlas_net.Interlink.Steps.{new, step, here, next, establishes_at}
use atlas_net.Interlink.Live.{IsLive}
use atlas_net.Interlink.Live.Reachable.{Reach-IsLive}
use atlas_net.Interlink.Mailbox.{Sent, Queued, send_message_lem}
use atlas_net.Interlink.Flush.{over, callback_on_connected_lem}
use atlas_net.Interlink.Crowded.{callback_on_connected_undefined}
use atlas_net.Interlink.Establish.{Silent, establish_connection_to_lem}
use atlas_net.Examples.Packets.{assign, id_one}
use atlas_net.Dispatch.Manager.{PacketManager}

abbrev text : List ℕ → List ℕ
text id = id

abbrev alike : NetworkIdentity → NetworkIdentity → Bool
alike = same text

abbrev unanswered : Lookup
unanswered who n = none

abbrev shard : NetworkIdentity
shard = record { type = e_shard; id = id_one }

abbrev dog_connection : Option ConnectionState → Option ℕ → Connection
dog_connection state steam = record {
  address = [];
  old_state = none;
  state = state;
  target = make_id_watch_dog;
  steam = steam;
  kind = internal;
}

abbrev with_connections : List Connection → List Waiting → Interlink
with_connections cs ms = record {
  self_id = shard;
  is_init = true;
  connections = cs;
  queued = (make_id_watch_dog, ms) ∷ [];
  calls = [];
}

abbrev waiting : Waiting
waiting = (assign, e_reliable_now)

abbrev ready : Connection
ready = dog_connection (some connected) (some 5)

abbrev joining : Connection
joining = dog_connection (some connecting) (some 5)

abbrev earlier : Connection
earlier = dog_connection (some connecting) (some 4)

assign-valid : validate assign ≡ true
unfolding validate Packet.validate_data ClientIdAssign.validate_data is_nil
assign-valid = refl

-- The watch dog connects to an address.
abbrev one_step : Interlink
one_step =
    insert (set_new_state pre_connecting (make shard [] external none)) (new make_id_watch_dog)

Reach-IsLive_example : IsLive one_step
unfolding new step establish_connection_at_ip under_way find_target
Reach-IsLive_example =
    Reach-IsLive alike (new make_id_watch_dog) one_step
      (next (establishes_at shard []) one_step here refl) tt

send_message_lem_example :
    Sent alike unanswered make_id_watch_dog waiting (with_connections (ready ∷ []) [])
    ⊎ Queued alike unanswered make_id_watch_dog waiting (with_connections (ready ∷ []) [])
unfolding is_connected
send_message_lem_example =
    send_message_lem alike unanswered make_id_watch_dog waiting (with_connections (ready ∷ []) [])
      (same_refl text) (same_both text) refl refl assign-valid (inr (refl, λ e. cc), tt)

callback_on_connected_lem_example :
    (callback_on_connected alike unanswered 5 none []
        (with_connections (joining ∷ []) (waiting ∷ []))
      ≡ done (record (with_connections (joining ∷ []) (waiting ∷ [])) {
        connections = modify_handle 5 (set_new_state connected) (joining ∷ []);
        queued = queue_erase alike make_id_watch_dog ((make_id_watch_dog, waiting ∷ []) ∷ []);
        calls = set_poll_group 5 ∷ map (over 5) (waiting ∷ []);
      }))
    × (queue_of alike make_id_watch_dog
          (queue_erase alike make_id_watch_dog ((make_id_watch_dog, waiting ∷ []) ∷ []))
        ≡ [])
unfolding find_handle has_handle find_target is_internal queue_of same to_string nuke_string
    trim_end trim_start visible_only keeps is_space enum_to_string is_nil
callback_on_connected_lem_example =
    callback_on_connected_lem alike unanswered 5 joining
      (with_connections (joining ∷ []) (waiting ∷ [])) refl refl refl none [] waiting [] refl refl
      refl (assign-valid, tt)

callback_on_connected_undefined_example :
    callback_on_connected alike unanswered 5 none []
      (with_connections (earlier ∷ joining ∷ []) (waiting ∷ []))
    ≡ undefined_run
unfolding find_handle has_handle find_target is_internal queue_of same to_string nuke_string
    trim_end trim_start visible_only keeps is_space enum_to_string is_nil is_pre_connecting
    is_connecting
callback_on_connected_undefined_example =
    callback_on_connected_undefined alike (same_refl text) unanswered 5 joining earlier
      (with_connections (earlier ∷ joining ∷ []) (waiting ∷ [])) none [] waiting [] refl refl refl
      refl refl refl refl assign-valid

abbrev subscribed : PacketManager
subscribed = record {
  callbacks = (4175458834, record { id = 1; alive = true } ∷ []) ∷ [];
  next_id = 2;
}

abbrev note : Packet → NetworkIdentity → ℕ → List ℕ → List ℕ
note p sender id log = log ++ id ∷ []

establish_connection_to_lem_example :
    ((i : ℕ) × (a : Address) × (i ≤ 5)
      × Silent unanswered make_id_watch_dog 0 i
      × (unanswered make_id_watch_dog i ≡ some a)
      × (establish_connection_to alike unanswered make_id_watch_dog (with_connections [] [])
          ≡ done (
            true,
            insert
                (set_new_state pre_connecting (make make_id_watch_dog a internal none))
                (with_connections [] []),
          )))
    ⊎ (Silent unanswered make_id_watch_dog 0 6
        × (establish_connection_to alike unanswered make_id_watch_dog (with_connections [] [])
            ≡ done (false, with_connections [] [])))
unfolding is_internal under_way find_target
establish_connection_to_lem_example =
    establish_connection_to_lem unanswered make_id_watch_dog alike (with_connections [] []) refl
      refl refl
