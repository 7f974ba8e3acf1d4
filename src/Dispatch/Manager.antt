-- ===== src/Dispatch/Manager.antt =====
-- `PacketManager` and its `Subscription`. A callback is named by its entry's id; what callbacks do is
-- a parameter of `dispatch`. The entries of the manager are the heap cells that its unique pointers
-- own: a pointer to an entry is the type under which the entry stands and its id.
use atlas_net.Prelude.{
  ℕ, ◌+◌, ◌%◌, ◌^◌, ◌==◌, Bool, true, false, List, [], ◌∷◌, ◌++◌, map, Option, some, none,
  if◌then◌else◌,
}

pub record CallbackEntry : Type 0 where
  pub id : ℕ
  pub alive : Bool

-- `m_callbacks`: one vector of entries for each packet type.
abbrev pub Callbacks : Type 0
Callbacks = List (ℕ × List CallbackEntry)

pub record PacketManager : Type 0 where
  pub callbacks : Callbacks
  pub next_id : ℕ

unfoldable pub new : PacketManager
new = record { callbacks = []; next_id = 1 }

-- `m_callbacks.find(type)`, with the empty vector for `end()`.
unfoldable pub entries : ℕ → Callbacks → List CallbackEntry
entries type [] = []
entries type ((t, es) ∷ rest) = if t == type then es else entries type rest

-- `m_callbacks[type].push_back(entry)`
unfoldable pub push_back : ℕ → CallbackEntry → Callbacks → Callbacks
push_back type e [] = (type, e ∷ []) ∷ []
push_back type e ((t, es) ∷ rest) =
    let later = push_back type e rest in
    if t == type then (t, es ++ e ∷ []) ∷ rest else (t, es) ∷ later

-- A subscription with no owner has been reset or moved from.
pub record Subscription : Type 0 where
  pub owned : Bool
  pub type : ℕ
  pub id : ℕ

-- `fetch_add` on a 64-bit counter.
unfoldable pub subscribe : ℕ → PacketManager → Subscription × PacketManager
subscribe type m = (
  record { owned = true; type = type; id = m.next_id },
  record {
    callbacks = push_back type (record { id = m.next_id; alive = true }) m.callbacks;
    next_id = (m.next_id + 1) % 2 ^ 64;
  },
)

-- The first entry with the id; the loop breaks there.
unfoldable pub kill : ℕ → List CallbackEntry → List CallbackEntry
kill id [] = []
kill id (e ∷ es) =
    let rest = kill id es in if e.id == id then record e { alive = false } ∷ es else e ∷ rest

unfoldable pub kill_under : ℕ → ℕ → Callbacks → Callbacks
kill_under type id [] = []
kill_under type id ((t, es) ∷ rest) =
    let later = kill_under type id rest in
    if t == type then (t, kill id es) ∷ rest else (t, es) ∷ later

unfoldable pub deactivate : ℕ → ℕ → PacketManager → PacketManager
deactivate type id m = record m { callbacks = kill_under type id m.callbacks }

-- `Subscription::Reset`, which the destructor calls too.
unfoldable pub reset : Subscription → PacketManager → Subscription × PacketManager
reset s m = if s.owned then (record s { owned = false }, deactivate s.type s.id m) else (s, m)

-- Move assignment of `other` to another subscription: the old target is reset, `other` gives up.
unfoldable pub move_assign :
    Subscription → Subscription → PacketManager → Subscription × Subscription × PacketManager
move_assign self other m = (
  record { owned = other.owned; type = other.type; id = other.id },
  record other { owned = false },
  (reset self m).1,
)

unfoldable pub keep_alive : List CallbackEntry → List CallbackEntry
keep_alive [] = []
keep_alive (e ∷ es) = if e.alive then e ∷ keep_alive es else keep_alive es

unfoldable pub cleanup : PacketManager → PacketManager
cleanup m = record m { callbacks = map (λ p. (p.0, keep_alive p.1)) m.callbacks }

-- What a raw pointer to an entry finds; `none` if the entry has been freed.
unfoldable pub load : ℕ → List CallbackEntry → Option Bool
load id [] = none
load id (e ∷ es) = if e.id == id then some e.alive else load id es

-- What a dispatch comes to: it returns, or reads an entry that has been freed.
pub data Outcome {ℓ} (S : Type ℓ) : Type ℓ where
  returned : S → Outcome S
  dangling : Outcome S

-- The pointers of the snapshot, one after the other, without the lock. The state is the manager and
-- whatever else the callbacks act on; `call id` is the callback of the entry `id`.
unfoldable pub call_each {ℓ} :
    {W : Type ℓ}
    → (ℕ → PacketManager × W → PacketManager × W)
    → ℕ
    → List ℕ
    → PacketManager × W
    → Outcome (PacketManager × W)
call_each call type [] s = returned s
call_each call type (id ∷ ids) s = elim (load id (entries type s.0.callbacks)) [
  | none ↦ dangling
  | some true ↦ call_each call type ids (call id s)
  | some false ↦ call_each call type ids s
]

unfoldable pub dispatch {ℓ} :
    {W : Type ℓ}
    → (ℕ → PacketManager × W → PacketManager × W)
    → ℕ
    → PacketManager × W
    → Outcome (PacketManager × W)
dispatch call type s = call_each call type (map (λ e. e.id) (entries type s.0.callbacks)) s
