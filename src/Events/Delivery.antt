-- ===== src/Events/Delivery.antt =====
-- An event on its way from `Dispatch` in one process to the callbacks of another.
use atlas_net.Prelude.{
  ℕ, ◌^◌, ◌<◌, ◌==◌, ◌≡◌, refl, ap, inl, inr, true, Bool-cases, arith, List, [], ◌∷◌, ◌++◌, map,
  Option, some, none, length, if◌then◌else◌,
}
use atlas_net.Bytes.Writer
use atlas_net.Bytes.Codec.{read-written}
use atlas_net.Interlink.Run.{done, aborted}
use atlas_net.Events.Event
use atlas_net.Events.Event.{EventKind, IEvent, IsEvent, kind_of, event_name, RoundTrips-event}
use atlas_net.Events.Registry.{hash_name}
use atlas_net.Events.Registered.{register_all, listed_kind, lookups_lem}
use atlas_net.Events.System.{
  EventSystem, Subscriptions, callbacks_of, push_callback, subscribe, dispatch, on_message,
}

abbrev pub or_empty : Option (List ℕ) → List ℕ
or_empty none = []
or_empty (some callbacks) = callbacks

callbacks_of-push_callback :
    (id f : ℕ) (subs : Subscriptions)
    → callbacks_of id (push_callback id f subs) ≡ some (or_empty (callbacks_of id subs) ++ f ∷ [])
unfolding push_callback
callbacks_of-push_callback id f [] = ground arith
callbacks_of-push_callback id f (x ∷ xs) = elim (Bool-cases (x.0 == id)) [
  | inl is ↦ rw (is, is) refl
  | inr apart ↦ rw (apart, apart) (callbacks_of-push_callback id f xs)
]

-- Both processes are initialised and have registered the event's class, each among any classes in any
-- order; the event's members fit their types and its bytes are fewer than 2 ^ 64. Then the receiver's
-- `Subscribe` with a callback for the class subscribes to the channel of the class; `Dispatch` publishes
-- one message on that channel; and from that message the receiver calls the callbacks that were
-- subscribed to the class before, in their order, and then the new one, each with the event itself.
pub dispatch-on_message :
    (e : IEvent) (here there : List EventKind) (s t : EventSystem) (f : ℕ)
    → s.event_system_init ≡ true
    → t.event_system_init ≡ true
    → listed_kind (kind_of e) here ≡ true
    → listed_kind (kind_of e) there ≡ true
    → IsEvent e
    → length (Event.serialize e Writer.new).buf < 2 ^ 64
    → let msg = (Event.serialize e Writer.new).buf in
      let name = event_name (kind_of e) in
      let before =
        or_empty (callbacks_of (hash_name (event_name (kind_of e))) t.event_subscriptions) in
      (t' : EventSystem) × (subscribe (register_all there []) (kind_of e) f t ≡ done (name, t'))
      × (dispatch (register_all here []) e s ≡ done (name, msg))
      × (on_message (register_all there []) name msg t'
          ≡ done (map (λ g. (g, e)) (before ++ f ∷ [])))
unfolding dispatch on_message subscribe
dispatch-on_message e here there s t f on_s on_t listed_here listed_there fits short =
    let (_, name_here, _, _) = lookups_lem (kind_of e) here listed_here in
    let (id_of_kind, name_there, id_there, kind_there) =
      lookups_lem (kind_of e) there listed_there in
    let id = hash_name (event_name (kind_of e)) in
    let t' : EventSystem = record t {
      has_subscription = true;
      event_subscriptions = push_callback id f t.event_subscriptions;
    } in
    (
      t',
      rw (subscribe, id_of_kind, name_there)
          (ap (λ b. if b then done (event_name (kind_of e), t') else aborted) on_t),
      rw (dispatch, on_s, name_here) refl,
      rw
          (
            on_message,
            id_there,
            callbacks_of-push_callback id f t.event_subscriptions,
            kind_there,
            read-written (Event.serialize e) (Event.deserialize (kind_of e)) e
                (RoundTrips-event e fits) short,
          )
          refl,
    )
