-- ===== src/Dispatch/Reentrancy.antt =====
-- Callbacks that act on the manager while it dispatches: they subscribe, unsubscribe and clean up,
-- while `Dispatch` holds raw pointers to the entries of its snapshot.
use atlas_net.Prelude.{
  ℕ, ◌+◌, ◌^◌, ◌<◌, ◌≡◌, ◌≢◌, ◌==◌, refl, ap, ◌∙◌, inl, inr, true, false, List, [], ◌∷◌, ◌++◌, map,
  append_assoc, some, none, All, arith, Bool-cases, Option-cases, ==_iff,
}
use atlas_net.Dispatch.Manager.{
  CallbackEntry, PacketManager, Subscription, entries, subscribe, kill, deactivate, reset,
  keep_alive, cleanup, load, dangling, call_each, dispatch,
}
use atlas_net.Dispatch.Table.{
  Rising, Rising-keep_alive, IsManager, subscribe-IsManager, cleanup-IsManager, entries-push_back,
  entries-kill_under, entries-cleanup,
}
use atlas_net.Dispatch.Delivery.{load-Rising, reset-IsManager}

-- What a callback may do to the manager.
pub data Effect : Type 0 where
  subscribes : ℕ → Effect
  resets : Subscription → Effect
  cleans : Effect

abbrev pub apply : Effect → PacketManager → PacketManager
apply (subscribes type) m = (subscribe type m).1
apply (resets s) m = (reset s m).1
apply cleans m = cleanup m

abbrev pub apply_all : List Effect → PacketManager → PacketManager
apply_all [] m = m
apply_all (e ∷ es) m = apply_all es (apply e m)

-- `Subscribe`, `Reset` and `Cleanup` each keep the vectors ordered by id, without repetition and
-- below the counter of ids, as long as the counter does not wrap.
pub apply-IsManager :
    (e : Effect) (m : PacketManager) → m.next_id + 1 < 2 ^ 64 → IsManager m → IsManager (apply e m)
apply-IsManager (subscribes type) m small h = subscribe-IsManager type m small h
apply-IsManager (resets s) m small h = reset-IsManager s m h
apply-IsManager cleans m small h = cleanup-IsManager m h

-- The callback of an entry does what the script says for its id, and notes the id in a log.
abbrev pub scripted : (ℕ → List Effect) → ℕ → PacketManager × List ℕ → PacketManager × List ℕ
scripted script id s = (apply_all (script id) s.0, s.1 ++ id ∷ [])

abbrev pub FreesNothing : Effect → Type 0
FreesNothing e = e ≢ cleans

-- The entry behind a pointer is still there.
abbrev Present : ℕ → ℕ → PacketManager → Type 0
Present type id m = load id (entries type m.callbacks) ≢ none

load-append :
    (id : ℕ) (es : List CallbackEntry) (e : CallbackEntry)
    → load id es ≢ none
    → load id (es ++ e ∷ []) ≢ none
unfolding load
load-append id [] e p = absurd (p refl)
load-append id (x ∷ es) e p = elim (Bool-cases (x.id == id)) [
  | inl here ↦ rw here (λ q. cc)
  | inr away ↦ rw away (load-append id es e (rw away at p))
]

load-kill :
    (id dead : ℕ) (es : List CallbackEntry) → load id es ≢ none → load id (kill dead es) ≢ none
unfolding load kill
load-kill id dead [] p = p
load-kill id dead (x ∷ es) p = ground (arith, load-kill id dead es)

apply-Present :
    (type id : ℕ) (e : Effect) (m : PacketManager)
    → FreesNothing e
    → Present type id m
    → Present type id (apply e m)
unfolding subscribe reset deactivate
apply-Present type id (subscribes u) m safe p =
    let e : CallbackEntry = record { id = m.next_id; alive = true } in
    elim (Bool-cases (u == type)) [
      | inl here ↦
          rw (entries-push_back type u e m.callbacks, here)
            (load-append id (entries type m.callbacks) e p)
      | inr away ↦ rw (entries-push_back type u e m.callbacks, away) p
    ]
apply-Present type id (resets s) m safe p = elim (Bool-cases s.owned) [
  | inl own ↦ rw (own, reset) (killed s.type s.id m p)
  | inr other ↦ rw (other, reset) p
]
  where
    killed :
        (u dead : ℕ) (m : PacketManager) → Present type id m → Present type id (deactivate u dead m)
    killed u dead m p = elim (Bool-cases (u == type)) [
      | inl here ↦
          rw (entries-kill_under type u dead m.callbacks, here)
            (load-kill id dead (entries type m.callbacks) p)
      | inr away ↦ rw (entries-kill_under type u dead m.callbacks, away) p
    ]
apply-Present type id cleans m safe p = absurd (safe refl)

apply_all-Present :
    (type id : ℕ) (es : List Effect) (m : PacketManager)
    → All FreesNothing es
    → Present type id m
    → Present type id (apply_all es m)
apply_all-Present type id [] m safe p = p
apply_all-Present type id (e ∷ es) m safe p =
    apply_all-Present type id es (apply e m) safe.1 (apply-Present type id e m safe.0 p)

All-Present :
    (type : ℕ) (es : List Effect) (m : PacketManager) (ids : List ℕ)
    → All FreesNothing es
    → All (λ id. Present type id m) ids
    → All (λ id. Present type id (apply_all es m)) ids
All-Present type es m [] safe ps = tt
All-Present type es m (id ∷ ids) safe ps =
    (apply_all-Present type id es m safe ps.0, All-Present type es m ids safe ps.1)

load_here :
    (pre : List CallbackEntry) (e : CallbackEntry) (rest : List CallbackEntry)
    → load e.id (pre ++ (e ∷ rest)) ≢ none
unfolding load
load_here [] e rest = rw ((==_iff e.id e.id).1 refl) (λ q. cc)
load_here (x ∷ pre) e rest = elim (Bool-cases (x.id == e.id)) [
  | inl here ↦ rw here (λ q. cc)
  | inr away ↦ rw away (load_here pre e rest)
]

present_from :
    (pre es : List CallbackEntry) → All (λ id. load id (pre ++ es) ≢ none) (map (λ e. e.id) es)
present_from pre [] = tt
present_from pre (e ∷ es) =
    (load_here pre e es, rw (append_assoc pre (e ∷ []) es) at (present_from (pre ++ e ∷ []) es))

module _ (script : ℕ → List Effect) (safe : (id : ℕ) → All FreesNothing (script id))
    (type : ℕ) where
  call_each_returns :
      (ids : List ℕ) (s : PacketManager × List ℕ)
      → All (λ id. Present type id s.0) ids
      → call_each (scripted script) type ids s ≢ dangling
  unfolding call_each
  call_each_returns [] s ps = λ e. cc
  call_each_returns (id ∷ ids) s ps = elim (Option-cases (load id (entries type s.0.callbacks))) [
    | inl gone ↦ absurd (ps.0 gone)
    | inr (true, e) ↦
        rw (e, call_each)
          (call_each_returns ids (scripted script id s)
            (All-Present type (script id) s.0 ids (safe id) ps.1))
    | inr (false, e) ↦ rw (e, call_each) (call_each_returns ids s ps.1)
  ]

  -- Where no callback cleans up, a dispatch returns from any manager, without reading a freed entry,
  -- however the callbacks subscribe and reset subscriptions while they are called.
  pub dispatch_returns : (s : PacketManager × List ℕ) → dispatch (scripted script) type s ≢ dangling
  unfolding dispatch
  dispatch_returns s = call_each_returns _ s (present_from [] (entries type s.0.callbacks))

load-keep_alive-kill :
    (lo id : ℕ) (es : List CallbackEntry) → Rising lo es → load id (keep_alive (kill id es)) ≡ none
unfolding load keep_alive kill
load-keep_alive-kill lo id [] r = refl
load-keep_alive-kill lo id (e ∷ es) r = ground (
  arith,
  load-keep_alive-kill (e.id + 1) id es r.1,
  load-Rising (e.id + 1) id (keep_alive es) (Rising-keep_alive (e.id + 1) es r.1),
)

module _ (call : ℕ → PacketManager × List ℕ → PacketManager × List ℕ) (type id : ℕ)
    (ids : List ℕ) where
  call_live :
      (s : PacketManager × List ℕ)
      → load id (entries type s.0.callbacks) ≡ some true
      → call_each call type (id ∷ ids) s ≡ call_each call type ids (call id s)
  unfolding call_each
  call_live s e = rw (e, call_each)

  call_freed :
      (s : PacketManager × List ℕ)
      → load id (entries type s.0.callbacks) ≡ none
      → call_each call type (id ∷ ids) s ≡ dangling
  unfolding call_each
  call_freed s e = rw (e, call_each)

-- Once reset and cleaned up, an entry is gone.
reset_cleaned :
    (s : Subscription) (m : PacketManager)
    → IsManager m
    → s.owned ≡ true
    → load s.id (entries s.type (apply_all (resets s ∷ cleans ∷ []) m).callbacks) ≡ none
unfolding reset deactivate
reset_cleaned s m h own =
    rw
      (
        entries-cleanup s.type (reset s m).1,
        own,
        entries-kill_under s.type s.type s.id m.callbacks,
        (==_iff s.type s.type).1 refl,
      )
      (load-keep_alive-kill 0 s.id (entries s.type m.callbacks) (h s.type).0)

-- Where the vectors are ordered by id without repetition, and the first entry of a type is alive and
-- its callback resets the owned subscription of the second entry and then cleans up, a dispatch of that
-- type reads a freed entry.
pub cleanup_dangles :
    (script : ℕ → List Effect) (m : PacketManager) (log : List ℕ) (a b : CallbackEntry)
    (rest : List CallbackEntry) (s : Subscription)
    → IsManager m
    → entries s.type m.callbacks ≡ a ∷ b ∷ rest
    → a.alive ≡ true
    → s.owned ≡ true
    → s.id ≡ b.id
    → script a.id ≡ resets s ∷ cleans ∷ []
    → dispatch (scripted script) s.type (m, log) ≡ dangling
unfolding dispatch
cleanup_dangles script m log a b rest s h es live own sub does =
    ap (λ es. call_each (scripted script) s.type (map (λ e. e.id) es) (m, log)) es
    ∙ call_live (scripted script) s.type a.id (b.id ∷ map (λ e. e.id) rest) (m, log) first
    ∙ call_freed (scripted script) s.type b.id (map (λ e. e.id) rest)
        (scripted script a.id (m, log)) second
  where
    first : load a.id (entries s.type m.callbacks) ≡ some true
    first = unfold load in rw (es, (==_iff a.id a.id).1 refl) (ap some live)

    second : load b.id (entries s.type (apply_all (script a.id) m).callbacks) ≡ none
    second = rw (← sub, does) (reset_cleaned s m h own)
