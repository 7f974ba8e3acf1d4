-- ===== src/Events/System.antt =====
-- `EventSystem` (AtlasNet/lib/Native/Events/EventSystem.hpp). A callback is a number, as in Dispatch. What the
-- database's publish and subscribe are called with comes with the result; that a message is handed to
-- `on_message` of who has subscribed to its channel is what Redis does. Threads and logging are left out.
use atlas_net.Prelude.{
  ℕ, ◌==◌, Bool, true, List, [], ◌∷◌, ◌++◌, map, Option, some, none, if◌then◌else◌,
}
use atlas_net.Bytes.Result.{ok, err, out_of_range}
use atlas_net.Bytes.Writer
use atlas_net.Bytes.Reader
use atlas_net.Interlink.Run.{Run, done, aborted, threw, undefined_run}
use atlas_net.Events.Event
use atlas_net.Events.Event.{EventKind, IEvent, kind_of}
use atlas_net.Events.Registry.{
  EventRegistry, get_event_type_id, get_event_name, get_event_type_id_of_name, create_from_type_id,
}

abbrev pub Text : Type 0
Text = List ℕ

abbrev pub Subscriptions : Type 0
Subscriptions = List (ℕ × List ℕ)

pub record EventSystem : Type 0 where
  pub has_subscription : Bool
  pub event_system_init : Bool
  pub event_subscriptions : Subscriptions

abbrev pub callbacks_of : ℕ → Subscriptions → Option (List ℕ)
callbacks_of id [] = none
callbacks_of id (x ∷ xs) = if x.0 == id then some x.1 else callbacks_of id xs

-- `event_subscriptions[eventID].push_back`
unfoldable pub push_callback : ℕ → ℕ → Subscriptions → Subscriptions
push_callback id f [] = (id, f ∷ []) ∷ []
push_callback id f (x ∷ xs) =
    let rest = push_callback id f xs in if x.0 == id then (x.0, x.1 ++ f ∷ []) ∷ xs else x ∷ rest

module _ (reg : EventRegistry) where
  -- The channel that is subscribed to, and the system.
  unfoldable pub subscribe : EventKind → ℕ → EventSystem → Run (Text × EventSystem)
  subscribe k f s =
      if s.event_system_init
      then elim (get_event_type_id k reg) [
        | none ↦ undefined_run
        | some id ↦ elim (get_event_name k reg) [
          | none ↦ undefined_run
          | some name ↦ done (
            name,
            record s {
              has_subscription = true;
              event_subscriptions = push_callback id f s.event_subscriptions;
            },
          )
        ]
      ]
      else aborted

  -- The channel and the message that are published.
  unfoldable pub dispatch : IEvent → EventSystem → Run (Text × Text)
  dispatch e s =
      if s.event_system_init
      then elim (get_event_name (kind_of e) reg) [
        | none ↦ undefined_run
        | some name ↦ done (name, (Event.serialize e Writer.new).buf)
      ]
      else aborted

  -- The calls that `on_message` makes, each a callback with the event.
  unfoldable pub on_message : Text → Text → EventSystem → Run (List (ℕ × IEvent))
  on_message channel msg s = elim (get_event_type_id_of_name channel reg) [
    | none ↦ undefined_run
    | some id ↦ elim (callbacks_of id s.event_subscriptions) [
      | none ↦ threw out_of_range
      | some callbacks ↦ elim (create_from_type_id id reg) [
        | none ↦ undefined_run
        | some k ↦ elim (Event.deserialize k (Reader.new msg)) [
          | err x ↦ threw x
          | ok r ↦ done (map (λ f. (f, r.0)) callbacks)
        ]
      ]
    ]
  ]
