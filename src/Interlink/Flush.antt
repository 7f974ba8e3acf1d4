-- ===== src/Interlink/Flush.antt =====
-- `CallbackOnConnected`: what becomes of the packets that wait for a connection.
use atlas_net.Prelude.{
  ℕ, ◌≡◌, refl, sym, ap, ◌∙◌, ==_iff, Bool, true, Option, some, List, [], ◌∷◌, ◌++◌, map, length,
  append_assoc, append-nil, All,
}
use atlas_net.Bytes.Writer
use atlas_net.Network.Identity.{NetworkIdentity, is_internal}
use atlas_net.Packets.Packet.{serialize, validate}
use atlas_net.Interlink.Run.{done, ◌>>=◌, if-true, elim-some, bind-done}
use atlas_net.Interlink.Connection.{Connection, connected, set_new_state, is_connected}
use atlas_net.Interlink.Table.{find_handle, modify_handle, find_target}
use atlas_net.Interlink.State.{
  Interlink, Waiting, Call, send, set_poll_group, call, queue_of, queue_erase,
}
use atlas_net.Interlink.Queues.{queue_of-erase}
use atlas_net.Interlink.Send.{Lookup, send_over, route, send_message}
use atlas_net.Interlink.Callbacks.{modify, flush_loop, flush, flush_handle, callback_on_connected}
use atlas_net.Interlink.Finding.{find_handle-modify, find_target-modify}

-- How the packets of a vector go out over a handle.
abbrev pub over : ℕ → Waiting → Call
over h m = send h (serialize m.0 Writer.new).buf m.1

abbrev pub IsValidWaiting : Waiting → Type 0
IsValidWaiting m = validate m.0 ≡ true

module _ (same : NetworkIdentity → NetworkIdentity → Bool) (lookup : Lookup) where
  module _ (who : NetworkIdentity) (c : Connection) (h : ℕ) (there : is_connected c.state ≡ true)
      (set : c.steam ≡ some h) where
    pub send_message_sent :
        (m : Waiting) (s : Interlink)
        → s.is_init ≡ true
        → find_target same who s.connections ≡ some c
        → IsValidWaiting m
        → send_message same lookup who m s ≡ done (call (over h m) s)
    unfolding send_message route send_over
    send_message_sent m s up known valid =
        if-true _ _ up
        ∙ if-true _ _ valid
        ∙ elim-some _ _ c known
        ∙ if-true _ _ there
        ∙ elim-some _ _ h set

    flush_loop_sends :
        (ms : List Waiting) (s : Interlink)
        → s.is_init ≡ true
        → find_target same who s.connections ≡ some c
        → All IsValidWaiting ms
        → flush_loop same lookup who ms s ≡ done (record s { calls = s.calls ++ map (over h) ms })
    unfolding flush_loop call
    flush_loop_sends [] s up known v =
        ap (λ cs. done (record s { calls = cs })) (sym (append-nil s.calls))
    flush_loop_sends (m ∷ ms) s up known v =
        bind-done _ (call (over h m) s) (send_message_sent m s up known v.0)
        ∙ if-true _ _ ((==_iff (length (queue_of same who s.queued)) _).1 refl)
        ∙ flush_loop_sends ms (call (over h m) s) up known v.1
        ∙ ap (λ cs. done (record s { calls = cs }))
            (append_assoc s.calls (over h m ∷ []) (map (over h) ms))

  module _ (h : ℕ) (c : Connection) (s : Interlink) (up : s.is_init ≡ true)
      (found : find_handle h s.connections ≡ some c) (inside : is_internal c.target ≡ true) where
    abbrev pub now_connected : Interlink
    now_connected = call (set_poll_group h) (modify h (set_new_state connected) s)

    pub to_flush :
        (bytes : Option (List ℕ)) (id : List ℕ)
        → callback_on_connected same lookup h bytes id s ≡ flush same lookup c.target now_connected
    unfolding callback_on_connected flush_handle call modify set_new_state
    to_flush bytes id =
        elim-some _ _ c found
        ∙ if-true _ _ inside
        ∙ elim-some _ _ (set_new_state connected c)
            (find_handle-modify h (set_new_state connected) s.connections c (λ x. refl) found)

    -- A connection to another process that `Connections` knows by its handle and by its target: when
    -- the transport reports it connected, and the packets that wait for the target validate, it is
    -- marked as connected, put into the poll group, and the packets are sent over it, each once and
    -- in the order in which they were queued; afterwards none wait.
    pub callback_on_connected_lem :
        (bytes : Option (List ℕ)) (id : List ℕ) (m : Waiting) (ms : List Waiting)
        → c.steam ≡ some h
        → find_target same c.target s.connections ≡ some c
        → queue_of same c.target s.queued ≡ m ∷ ms
        → All IsValidWaiting (m ∷ ms)
        → (callback_on_connected same lookup h bytes id s
            ≡ done (record s {
              connections = modify_handle h (set_new_state connected) s.connections;
              queued = queue_erase same c.target s.queued;
              calls = s.calls ++ set_poll_group h ∷ map (over h) (m ∷ ms);
            }))
          × (queue_of same c.target (queue_erase same c.target s.queued) ≡ [])
    unfolding flush call modify set_new_state is_connected
    callback_on_connected_lem bytes id m ms set known waits v = (
      to_flush bytes id
          ∙ ap
              (λ q. elim q [
                | [] ↦ done now_connected
                | x ∷ xs ↦ flush_loop same lookup c.target (x ∷ xs) now_connected >>= λ t.
                    done (record t { queued = queue_erase same c.target t.queued })
              ])
              waits
          ∙ bind-done _ _ (
              flush_loop_sends c.target (set_new_state connected c) h refl set (m ∷ ms)
                now_connected up
                (find_target-modify same c.target h (set_new_state connected) s.connections c
                  (λ x. refl) found known)
                v)
          ∙ ap
              (λ cs. done (record s {
                connections = modify_handle h (set_new_state connected) s.connections;
                queued = queue_erase same c.target s.queued;
                calls = cs;
              }))
              (append_assoc s.calls (set_poll_group h ∷ []) (map (over h) (m ∷ ms))),
      queue_of-erase same c.target s.queued,
    )
