-- ===== src/Events/Registered.antt =====
-- What an `EventRegistry` holds after events have registered themselves.
use atlas_net.Prelude.{
  ◌≡◌, refl, sym, ap, ◌∙◌, inl, inr, Bool, true, false, ◌||◌, List, [], ◌∷◌, ◌++◌, some, All,
  All-append, Bool-cases, arith,
}
use atlas_net.Packets.Hash.{hash_string, hash_loop}
use atlas_net.Events.Event.{EventKind, client_connect, log, event_name}
use atlas_net.Events.Registry.{
  EventTypeEntry, EventRegistry, same_kind, hash_name, find, by_type_index, by_type_id, by_name,
  clashes, register_event, get_event_type_id, get_event_name, get_event_type_id_of_name,
  create_from_type_id,
}

abbrev pub entry_of : EventKind → EventTypeEntry
entry_of k = record { type_index = k; name = event_name k; id = hash_name (event_name k) }

-- The initialisers of ATLASNET_REGISTER_EVENT, in any order.
abbrev pub register_all : List EventKind → EventRegistry → EventRegistry
register_all [] reg = reg
register_all (k ∷ ks) reg = register_all ks (register_event k (event_name k) reg)

abbrev pub listed_kind : EventKind → List EventKind → Bool
listed_kind k [] = false
listed_kind k (j ∷ js) = same_kind j k || listed_kind k js

-- Every entry is as the macro makes it.
abbrev pub IsRegistry : EventRegistry → Type 0
IsRegistry reg = All (λ e. e ≡ entry_of e.type_index) reg

name_tells : (j k : EventKind) → by_name (event_name k) (entry_of j) ≡ same_kind j k
unfolding event_name
name_tells client_connect client_connect = refl
name_tells client_connect log = refl
name_tells log client_connect = refl
name_tells log log = refl

id_tells : (j k : EventKind) → by_type_id (hash_name (event_name k)) (entry_of j) ≡ same_kind j k
unfolding event_name hash_name hash_string hash_loop
id_tells client_connect client_connect = refl
id_tells client_connect log = refl
id_tells log client_connect = refl
id_tells log log = refl

abbrev pub known : EventKind → EventRegistry → Bool
known k [] = false
known k (e ∷ es) = same_kind e.type_index k || known k es

same_kind_eq : (j k : EventKind) → same_kind j k ≡ true → j ≡ k
same_kind_eq client_connect client_connect h = refl
same_kind_eq client_connect log h = absurd cc
same_kind_eq log client_connect h = absurd cc
same_kind_eq log log h = refl

-- A key that tells the kinds apart finds the entry of its kind.
finds :
    (p : EventTypeEntry → Bool) (k : EventKind) (reg : EventRegistry)
    → ((j : EventKind) → p (entry_of j) ≡ same_kind j k)
    → IsRegistry reg
    → known k reg ≡ true
    → find p reg ≡ some (entry_of k)
finds p k [] tells h is = absurd cc
finds p k (e ∷ es) tells h is = elim (Bool-cases (same_kind e.type_index k)) [
  | inl it ↦
      rw (ap p h.0 ∙ tells e.type_index ∙ it)
        (ap some (h.0 ∙ ap entry_of (same_kind_eq e.type_index k it)))
  | inr other ↦
      rw (ap p h.0 ∙ tells e.type_index ∙ other)
        (finds p k es tells h.1 (sym (ap (λ b. b || known k es) other) ∙ is))
]

clashes-known :
    (j : EventKind) (reg : EventRegistry) → IsRegistry reg → clashes (entry_of j) reg ≡ known j reg
unfolding clashes
clashes-known j [] h = refl
clashes-known j (e ∷ es) h =
    ap
      (λ x.
        by_type_id (hash_name (event_name j)) x
        || (same_kind e.type_index j || (by_name (event_name j) x || clashes (entry_of j) es)))
      h.0
    ∙ rw (id_tells e.type_index j, name_tells e.type_index j, clashes-known j es h.1)
        (thrice (same_kind e.type_index j) (known j es))
  where
    thrice : (a b : Bool) → (a || (a || (a || b))) ≡ (a || b)
    thrice a b = ground arith

known-append :
    (k j : EventKind) (reg : EventRegistry)
    → known k (reg ++ entry_of j ∷ []) ≡ (same_kind j k || known k reg)
known-append k j [] = refl
known-append k j (e ∷ es) =
    ap (λ b. same_kind e.type_index k || b) (known-append k j es)
    ∙ swapped (same_kind e.type_index k) (same_kind j k) (known k es)
  where
    swapped : (a b c : Bool) → (a || (b || c)) ≡ (b || (a || c))
    swapped a b c = ground arith

-- What one registration does.
registered :
    (j : EventKind) (reg : EventRegistry)
    → IsRegistry reg
    → IsRegistry (register_event j (event_name j) reg)
      × ((k : EventKind)
          → known k (register_event j (event_name j) reg) ≡ (same_kind j k || known k reg))
unfolding register_event
registered j reg h = elim (Bool-cases (known j reg)) [
  | inl it ↦ rw (register_event, clashes-known j reg h, it) (h, λ k. already k it)
  | inr new ↦
      rw (register_event, clashes-known j reg h, new)
        (
          All-append (λ e. e ≡ entry_of e.type_index) reg (entry_of j ∷ []) h (refl, tt),
          λ k. known-append k j reg,
        )
]
  where
    already : (k : EventKind) → known j reg ≡ true → known k reg ≡ (same_kind j k || known k reg)
    already k it = elim (Bool-cases (same_kind j k)) [
      | inr other ↦ rw other refl
      | inl same ↦ rw same (ap (λ i. known i reg) (sym (same_kind_eq j k same)) ∙ it)
    ]

all_registered :
    (ks : List EventKind) (reg : EventRegistry)
    → IsRegistry reg
    → IsRegistry (register_all ks reg)
      × ((k : EventKind) → known k (register_all ks reg) ≡ (listed_kind k ks || known k reg))
all_registered [] reg h = (h, λ k. refl)
all_registered (j ∷ js) reg h =
    let (is, one) = registered j reg h in
    let (are, all) = all_registered js (register_event j (event_name j) reg) is in
    (
      are,
      λ k.
          all k
          ∙ ap (λ b. listed_kind k js || b) (one k)
          ∙ moved (listed_kind k js) (same_kind j k) (known k reg),
    )
  where
    moved : (a b c : Bool) → (a || (b || c)) ≡ ((b || a) || c)
    moved a b c = ground arith

module _ (k : EventKind) (ks : List EventKind) (h : listed_kind k ks ≡ true) where
  found :
      (p : EventTypeEntry → Bool)
      → ((j : EventKind) → p (entry_of j) ≡ same_kind j k)
      → find p (register_all ks []) ≡ some (entry_of k)
  found p tells =
      let (is, all) = all_registered ks [] tt in
      finds p k (register_all ks []) tells is (all k ∙ ap (λ b. b || false) h)

  -- Whatever the order of registration, each of the lookups finds an event that has registered itself.
  pub lookups_lem :
      (get_event_type_id k (register_all ks []) ≡ some (hash_name (event_name k)))
      × (get_event_name k (register_all ks []) ≡ some (event_name k))
      × (get_event_type_id_of_name (event_name k) (register_all ks [])
          ≡ some (hash_name (event_name k)))
      × (create_from_type_id (hash_name (event_name k)) (register_all ks []) ≡ some k)
  unfolding get_event_type_id get_event_name get_event_type_id_of_name create_from_type_id
  lookups_lem = (
    rw (get_event_type_id, found (by_type_index k) (λ j. refl)) refl,
    rw (get_event_name, found (by_type_index k) (λ j. refl)) refl,
    rw (get_event_type_id_of_name, found (by_name (event_name k)) (λ j. name_tells j k)) refl,
    rw (create_from_type_id, found (by_type_id (hash_name (event_name k))) (λ j. id_tells j k))
        refl,
  )
