-- ===== src/Dispatch/Delivery.antt =====
-- What a dispatch does: who is called, in which order, and when it can go wrong.
use mathlib.Core.List.{map-append}
use atlas_net.Prelude.{
  ℕ, ◌+◌, ◌^◌, ◌<◌, ◌≡◌, ◌==◌, refl, ap, ◌∙◌, inl, inr, true, List, [], ◌∷◌, ◌++◌, map, some, none,
  All, if◌then◌else◌, arith, Bool-cases, ==_iff,
}
use atlas_net.Dispatch.Manager.{
  CallbackEntry, PacketManager, Subscription, entries, subscribe, kill, deactivate, reset,
  keep_alive, cleanup, load, returned, call_each, dispatch,
}
use atlas_net.Dispatch.Table.{
  Rising, Rising-weaken, IsManager, entries-push_back, entries-kill_under, entries-cleanup,
  cleanup-IsManager, deactivate-IsManager, subscribe-IsManager,
}

abbrev pub alive_ids : List CallbackEntry → List ℕ
alive_ids es = map (λ e. e.id) (keep_alive es)

-- The callbacks `ids`, one after the other, on what they act on.
abbrev pub call_all {ℓ} : {W : Type ℓ} → (ℕ → W → W) → List ℕ → W → W
call_all act [] w = w
call_all act (id ∷ ids) w = call_all act ids (act id w)

-- In a vector of rising ids each pointer finds its own entry.
pub load-Rising : (lo x : ℕ) (es : List CallbackEntry) → Rising lo es → x < lo → load x es ≡ none
unfolding load
load-Rising lo x [] r h = refl
load-Rising lo x (e ∷ es) r h = ground (arith, load-Rising (e.id + 1) x es r.1)

abbrev Found : List CallbackEntry → List CallbackEntry → Type 0
Found all es = All (λ e. load e.id all ≡ some e.alive) es

Found-cons :
    (x : CallbackEntry) (all es : List CallbackEntry)
    → Rising (x.id + 1) es
    → Found all es
    → Found (x ∷ all) es
unfolding load
Found-cons x all [] r f = tt
Found-cons x all (e ∷ es) r f = (
  ground (arith, r.0, f.0),
  Found-cons x all es (Rising-weaken (x.id + 1) (e.id + 1) es (omega (arith, r.0)) r.1) f.1,
)

Found-self : (lo : ℕ) (es : List CallbackEntry) → Rising lo es → Found es es
Found-self lo [] r = tt
Found-self lo (e ∷ es) r = (first, Found-cons e es es r.1 (Found-self (e.id + 1) es r.1))
  where
    first : load e.id (e ∷ es) ≡ some e.alive
    first = unfold load in rw ((==_iff e.id e.id).1 refl)

-- The ids but one.
abbrev pub without : ℕ → List ℕ → List ℕ
without id [] = []
without id (x ∷ xs) = if x == id then without id xs else x ∷ without id xs

without-Rising :
    (lo id : ℕ) (es : List CallbackEntry)
    → Rising lo es
    → id < lo
    → without id (alive_ids es) ≡ alive_ids es
unfolding keep_alive
without-Rising lo id [] r h = refl
without-Rising lo id (e ∷ es) r h = ground (arith, without-Rising (e.id + 1) id es r.1)

alive_ids-kill :
    (lo id : ℕ) (es : List CallbackEntry)
    → Rising lo es
    → alive_ids (kill id es) ≡ without id (alive_ids es)
unfolding kill keep_alive
alive_ids-kill lo id [] r = refl
alive_ids-kill lo id (e ∷ es) r =
    ground (arith, alive_ids-kill (e.id + 1) id es r.1, without-Rising (e.id + 1) id es r.1)

keep_alive_twice : (es : List CallbackEntry) → keep_alive (keep_alive es) ≡ keep_alive es
unfolding keep_alive
keep_alive_twice [] = refl
keep_alive_twice (e ∷ es) = ground (arith, keep_alive_twice es)

keep_alive-append :
    (es fs : List CallbackEntry) → keep_alive (es ++ fs) ≡ keep_alive es ++ keep_alive fs
unfolding keep_alive
keep_alive-append [] fs = refl
keep_alive-append (e ∷ es) fs = ground (arith, keep_alive-append es fs)

call_all-append {ℓ} :
    {W : Type ℓ} (act : ℕ → W → W) (xs : List ℕ) (y : ℕ) (w : W)
    → call_all act (xs ++ y ∷ []) w ≡ act y (call_all act xs w)
call_all-append act [] y w = refl
call_all-append act (x ∷ xs) y w = call_all-append act xs y (act x w)

-- Callbacks that leave the manager alone.
abbrev pub outside {ℓ} : {W : Type ℓ} → (ℕ → W → W) → ℕ → PacketManager × W → PacketManager × W
outside act id s = (s.0, act id s.1)

module _ {ℓ} {W : Type ℓ} (act : ℕ → W → W) (type : ℕ) (m : PacketManager) where
  call_each_alive :
      (es : List CallbackEntry) (w : W)
      → Found (entries type m.callbacks) es
      → call_each (outside act) type (map (λ e. e.id) es) (m, w)
        ≡ returned (m, call_all act (alive_ids es) w)
  unfolding call_each keep_alive
  call_each_alive [] w f = refl
  call_each_alive (e ∷ es) w f = elim (Bool-cases e.alive) [
    | inl live ↦ rw (f.0, live, call_each) (call_each_alive es (act e.id w) f.1)
    | inr dead ↦ rw (f.0, dead, call_each) (call_each_alive es w f.1)
  ]

  -- Where the vectors are ordered by id without repetition, and the callbacks leave the manager alone,
  -- a dispatch returns and has called the live entries of the packet's type, in the order of their
  -- subscription, each once, and nobody else; the manager is as before.
  pub dispatch_alive :
      (w : W)
      → IsManager m
      → dispatch (outside act) type (m, w)
        ≡ returned (m, call_all act (alive_ids (entries type m.callbacks)) w)
  unfolding dispatch
  dispatch_alive w h =
      call_each_alive (entries type m.callbacks) w
        (Found-self 0 (entries type m.callbacks) (h type).0)

pub reset-IsManager : (s : Subscription) (m : PacketManager) → IsManager m → IsManager (reset s m).1
unfolding reset
reset-IsManager s m h = elim (Bool-cases s.owned) [
  | inl own ↦ rw (own, reset) (deactivate-IsManager s.type s.id m h)
  | inr other ↦ rw (other, reset) h
]

silenced :
    (s : Subscription) (m : PacketManager)
    → s.owned ≡ true
    → IsManager m
    → alive_ids (entries s.type (reset s m).1.callbacks)
      ≡ without s.id (alive_ids (entries s.type m.callbacks))
unfolding reset deactivate
silenced s m own h =
    rw (own, entries-kill_under s.type s.type s.id m.callbacks, (==_iff s.type s.type).1 refl)
      (alive_ids-kill 0 s.id (entries s.type m.callbacks) (h s.type).0)

joined :
    (type : ℕ) (m : PacketManager)
    → alive_ids (entries type (subscribe type m).1.callbacks)
      ≡ alive_ids (entries type m.callbacks) ++ m.next_id ∷ []
unfolding subscribe keep_alive
joined type m =
    let e : CallbackEntry = record { id = m.next_id; alive = true } in
    rw (entries-push_back type type e m.callbacks, (==_iff type type).1 refl)
      (ap (map (λ x. x.id)) (keep_alive-append (entries type m.callbacks) (e ∷ []))
        ∙ map-append (λ x. x.id) (keep_alive (entries type m.callbacks)) (e ∷ []))

module _ {ℓ} {W : Type ℓ} (act : ℕ → W → W) (m : PacketManager) (h : IsManager m) (w : W) where
  -- Where the vectors are ordered by id without repetition, after an owned subscription is reset, a
  -- dispatch of its type whose callbacks leave the manager alone calls whom it called before, in the
  -- same order, without the entry of that id.
  pub dispatch-reset :
      (s : Subscription)
      → s.owned ≡ true
      → dispatch (outside act) s.type ((reset s m).1, w)
        ≡ returned
            ((reset s m).1, call_all act (without s.id (alive_ids (entries s.type m.callbacks))) w)
  dispatch-reset s own =
      dispatch_alive act s.type (reset s m).1 w (reset-IsManager s m h)
      ∙ ap (λ ids. returned ((reset s m).1, call_all act ids w)) (silenced s m own h)

  -- Where the vectors are ordered by id without repetition, and the counter does not wrap, a dispatch
  -- after `Subscribe` whose callbacks leave the manager alone calls whom it called before, in the
  -- same order, and the new entry last.
  dispatch-subscribe :
      (type : ℕ)
      → m.next_id + 1 < 2 ^ 64
      → dispatch (outside act) type ((subscribe type m).1, w)
        ≡ returned (
          (subscribe type m).1,
          act m.next_id (call_all act (alive_ids (entries type m.callbacks)) w),
        )
  dispatch-subscribe type small =
      dispatch_alive act type (subscribe type m).1 w (subscribe-IsManager type m small h)
      ∙ ap (λ ids. returned ((subscribe type m).1, call_all act ids w)) (joined type m)
      ∙ ap (λ x. returned ((subscribe type m).1, x))
          (call_all-append act (alive_ids (entries type m.callbacks)) m.next_id w)

  -- Where the vectors are ordered by id without repetition, a dispatch after `Cleanup` whose callbacks
  -- leave the manager alone calls the live entries of before, in the same order.
  pub dispatch-cleanup :
      (type : ℕ)
      → dispatch (outside act) type (cleanup m, w)
        ≡ returned (cleanup m, call_all act (alive_ids (entries type m.callbacks)) w)
  dispatch-cleanup type =
      dispatch_alive act type (cleanup m) w (cleanup-IsManager m h)
      ∙ ap (λ es. returned (cleanup m, call_all act (map (λ e. e.id) es) w))
          (ap keep_alive (entries-cleanup type m) ∙ keep_alive_twice (entries type m.callbacks))
