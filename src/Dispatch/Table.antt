-- ===== src/Dispatch/Table.antt =====
-- The vectors of callbacks under the operations of the manager.
use native.Mathlib.Nat.{mod-eq_of_lt}
use atlas_net.Prelude.{
  ℕ, ◌+◌, ◌^◌, ◌≤◌, ◌<◌, ◌≡◌, ◌==◌, refl, inl, inr, Bool, true, false, List, [], ◌∷◌, ◌++◌, map,
  if◌then◌else◌, arith, Bool-cases, ==_iff,
}
use atlas_net.Dispatch.Manager.{
  CallbackEntry, Callbacks, PacketManager, entries, push_back, subscribe, kill, kill_under,
  deactivate, keep_alive, cleanup, new,
}

pub entries-push_back :
    (t u : ℕ) (e : CallbackEntry) (cs : Callbacks)
    → entries t (push_back u e cs) ≡ (if u == t then entries t cs ++ e ∷ [] else entries t cs)
unfolding entries push_back
entries-push_back t u e [] = ground arith
entries-push_back t u e ((x, es) ∷ rest) =
    ground (arith, entries-push_back t u e rest, ==_iff x u, ==_iff x t, ==_iff u t)

pub entries-kill_under :
    (t u id : ℕ) (cs : Callbacks)
    → entries t (kill_under u id cs) ≡ (if u == t then kill id (entries t cs) else entries t cs)
unfolding entries kill_under kill
entries-kill_under t u id [] = ground arith
entries-kill_under t u id ((x, es) ∷ rest) =
    ground (arith, entries-kill_under t u id rest, ==_iff x u, ==_iff x t, ==_iff u t)

entries-swept :
    (t : ℕ) (cs : Callbacks)
    → entries t (map (λ p. (p.0, keep_alive p.1)) cs) ≡ keep_alive (entries t cs)
unfolding entries keep_alive
entries-swept t [] = refl
entries-swept t ((x, es) ∷ rest) = elim (Bool-cases (x == t)) [
  | inl here ↦ rw here
  | inr away ↦ rw away (entries-swept t rest)
]

pub entries-cleanup :
    (t : ℕ) (m : PacketManager)
    → entries t (cleanup m).callbacks ≡ keep_alive (entries t m.callbacks)
unfolding cleanup
entries-cleanup t m = entries-swept t m.callbacks

-- Ids rise along a vector, from `lo` on.
abbrev pub Rising : ℕ → List CallbackEntry → Type 0
Rising lo [] = Unit {0}
Rising lo (e ∷ es) = (lo ≤ e.id) × Rising (e.id + 1) es

-- And stay below `hi`.
abbrev pub Below : ℕ → List CallbackEntry → Type 0
Below hi [] = Unit {0}
Below hi (e ∷ es) = (e.id < hi) × Below hi es

-- Each vector lists its entries in the order in which they were subscribed, without repetition.
abbrev pub IsManager : PacketManager → Type 0
IsManager m = (t : ℕ) → Rising 0 (entries t m.callbacks) × Below m.next_id (entries t m.callbacks)

Rising-append :
    (lo : ℕ) (es : List CallbackEntry) (e : CallbackEntry)
    → Rising lo es
    → Below e.id es
    → lo ≤ e.id
    → Rising lo (es ++ e ∷ [])
Rising-append lo [] e r b h = (h, tt)
Rising-append lo (x ∷ es) e r b h = (r.0, Rising-append (x.id + 1) es e r.1 b.1 (omega arith))

Below-append :
    (hi : ℕ) (es : List CallbackEntry) (e : CallbackEntry)
    → Below hi es
    → e.id < hi
    → Below hi (es ++ e ∷ [])
Below-append hi [] e b h = (h, tt)
Below-append hi (x ∷ es) e b h = (b.0, Below-append hi es e b.1 h)

Below-mono : (a b : ℕ) (es : List CallbackEntry) → a ≤ b → Below a es → Below b es
Below-mono a b [] h l = tt
Below-mono a b (e ∷ es) h l = (omega (arith, l.0), Below-mono a b es h l.1)

Rising-kill : (lo id : ℕ) (es : List CallbackEntry) → Rising lo es → Rising lo (kill id es)
unfolding kill
Rising-kill lo id [] r = r
Rising-kill lo id (e ∷ es) r = ground (arith, Rising-kill (e.id + 1) id es r.1)

Below-kill : (hi id : ℕ) (es : List CallbackEntry) → Below hi es → Below hi (kill id es)
unfolding kill
Below-kill hi id [] b = b
Below-kill hi id (e ∷ es) b = ground (arith, Below-kill hi id es b.1)

pub Rising-weaken : (a b : ℕ) (es : List CallbackEntry) → a ≤ b → Rising b es → Rising a es
Rising-weaken a b [] h r = tt
Rising-weaken a b (e ∷ es) h r = (omega (arith, r.0), r.1)

pub Rising-keep_alive :
    (lo : ℕ) (es : List CallbackEntry) → Rising lo es → Rising lo (keep_alive es)
unfolding keep_alive
Rising-keep_alive lo [] r = r
Rising-keep_alive lo (e ∷ es) r = elim (Bool-cases e.alive) [
  | inl live ↦ rw live (r.0, Rising-keep_alive (e.id + 1) es r.1)
  | inr dead ↦
      rw dead (Rising-keep_alive lo es (Rising-weaken lo (e.id + 1) es (omega (arith, r.0)) r.1))
]

Below-keep_alive : (hi : ℕ) (es : List CallbackEntry) → Below hi es → Below hi (keep_alive es)
unfolding keep_alive
Below-keep_alive hi [] b = b
Below-keep_alive hi (e ∷ es) b = ground (arith, Below-keep_alive hi es b.1)

pub new-IsManager : IsManager new
unfolding new entries
new-IsManager t = (tt, tt)

-- A new entry goes behind the others, as long as the counter does not wrap.
pub subscribe-IsManager :
    (u : ℕ) (m : PacketManager) → m.next_id + 1 < 2 ^ 64 → IsManager m → IsManager (subscribe u m).1
unfolding subscribe
subscribe-IsManager u m small h t =
    let e : CallbackEntry = record { id = m.next_id; alive = true } in
    rw (entries-push_back t u e m.callbacks, mod-eq_of_lt small) (grown e (u == t) refl)
  where
    grown :
        (e : CallbackEntry) (here : Bool)
        → e.id ≡ m.next_id
        → Rising 0 (if here then entries t m.callbacks ++ e ∷ [] else entries t m.callbacks)
          × Below
              (m.next_id + 1)
              (if here then entries t m.callbacks ++ e ∷ [] else entries t m.callbacks)
    grown e true k = (
      Rising-append 0 _ e (h t).0 (rw k (h t).1) (omega arith),
      Below-append (m.next_id + 1) _ e
          (Below-mono m.next_id (m.next_id + 1) _ (omega arith) (h t).1) (omega (arith, k)),
    )
    grown e false k = ((h t).0, Below-mono m.next_id (m.next_id + 1) _ (omega arith) (h t).1)

pub deactivate-IsManager :
    (u id : ℕ) (m : PacketManager) → IsManager m → IsManager (deactivate u id m)
unfolding deactivate
deactivate-IsManager u id m h t = elim (Bool-cases (u == t)) [
  | inl here ↦
      rw (entries-kill_under t u id m.callbacks, here)
        (Rising-kill 0 id _ (h t).0, Below-kill m.next_id id _ (h t).1)
  | inr away ↦ rw (entries-kill_under t u id m.callbacks, away) (h t)
]

pub cleanup-IsManager : (m : PacketManager) → IsManager m → IsManager (cleanup m)
cleanup-IsManager m h t = rw (entries-cleanup t m) (Rising-keep_alive 0 _ (h t).0, swept)
  where
    swept : Below (cleanup m).next_id (keep_alive (entries t m.callbacks))
    swept = unfold cleanup in Below-keep_alive m.next_id _ (h t).1
