-- ===== src/Events/Registry.antt =====
-- `EventRegistry` (AtlasNet/lib/Native/Events/EventRegistry.hpp). The `std::type_index` of a class and its factory
-- are its kind. The container is the list of its entries; each of its three indices is unique, so an entry
-- that agrees with one that is there in any of the keys is not inserted.
use atlas_net.Prelude.{
  ℕ, ◌==◌, Bool, true, false, ◌||◌, List, [], ◌∷◌, ◌++◌, Option, some, none, if◌then◌else◌,
  lex_same,
}
use atlas_net.Packets.Hash.{hash_string}
use atlas_net.Events.Event.{EventKind, client_connect, log}

abbrev pub same_kind : EventKind → EventKind → Bool
same_kind client_connect client_connect = true
same_kind client_connect log = false
same_kind log client_connect = false
same_kind log log = true

pub record EventTypeEntry : Type 0 where
  pub type_index : EventKind
  pub name : List ℕ
  pub id : ℕ

-- A C string ends at its first zero.
abbrev pub until_zero : List ℕ → List ℕ
until_zero [] = []
until_zero (c ∷ cs) = if c == 0 then [] else c ∷ until_zero cs

unfoldable pub hash_name : List ℕ → ℕ
hash_name s = hash_string (until_zero s)

abbrev pub EventRegistry : Type 0
EventRegistry = List EventTypeEntry

abbrev pub find : (EventTypeEntry → Bool) → EventRegistry → Option EventTypeEntry
find p [] = none
find p (e ∷ es) = if p e then some e else find p es

abbrev pub by_type_index : EventKind → EventTypeEntry → Bool
by_type_index k e = same_kind e.type_index k

abbrev pub by_type_id : ℕ → EventTypeEntry → Bool
by_type_id id e = e.id == id

abbrev pub by_name : List ℕ → EventTypeEntry → Bool
by_name name e = lex_same e.name name

unfoldable pub clashes : EventTypeEntry → EventRegistry → Bool
clashes new [] = false
clashes new (e ∷ es) =
    by_type_id new.id e
    || (by_type_index new.type_index e || (by_name new.name e || clashes new es))

unfoldable pub register_event : EventKind → List ℕ → EventRegistry → EventRegistry
register_event k name reg =
    let entry : EventTypeEntry = record { type_index = k; name = name; id = hash_name name } in
    if clashes entry reg then reg else reg ++ entry ∷ []

-- `none` is the end of the container, which the source dereferences.
unfoldable pub get_event_type_id : EventKind → EventRegistry → Option ℕ
get_event_type_id k reg = elim (find (by_type_index k) reg) [ none ↦ none | some e ↦ some e.id ]

unfoldable pub get_event_name : EventKind → EventRegistry → Option (List ℕ)
get_event_name k reg = elim (find (by_type_index k) reg) [ none ↦ none | some e ↦ some e.name ]

unfoldable pub get_event_type_id_of_name : List ℕ → EventRegistry → Option ℕ
get_event_type_id_of_name name reg = elim (find (by_name name) reg) [
  | none ↦ none
  | some e ↦ some e.id
]

unfoldable pub create_from_type_id : ℕ → EventRegistry → Option EventKind
create_from_type_id id reg = elim (find (by_type_id id) reg) [
  | none ↦ none
  | some e ↦ some e.type_index
]
