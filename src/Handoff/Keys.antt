-- ===== src/Handoff/Keys.antt =====
-- The maps of `SH_TransferMailbox` never have a key twice.
use atlas_net.Prelude.{ℕ, inl, inr, Bool, List, [], ◌∷◌, Bool-cases}
use atlas_net.Network.Identity.{NetworkIdentity}
use atlas_net.Entity.Full.{AtlasEntity}
use atlas_net.Ledger.State.{id_of}
use atlas_net.Ledger.Uuids.{Uuid, Uuids}
use atlas_net.Prelude.{◌≡◌, refl, ap, ◌∙◌, false, some}
use atlas_net.Handoff.Maps.{
  Map, lookup, assign, same_self, same-eq, erase, erase_all, Fresh, Distinct, Distinct-assign,
}
use atlas_net.Handoff.Tracker.{Tracker}
use atlas_net.Handoff.Mailbox.{
  TransferMailbox, PendingOutgoingHandoff, reset, queue_incoming, adopt_each, commit_each,
  adopt_incoming_if_due, add_pending_outgoing, commit_outgoing_if_due, clear_pending_outgoing,
  has_pending_incoming, has_pending_outgoing,
}

module _ {ℓ} {V : Type ℓ} (u : Uuids) where
  pub Fresh-erase : (k id : Uuid) (m : Map V) → Fresh u k m → Fresh u k (erase u id m)
  Fresh-erase k id [] f = tt
  Fresh-erase k id (x ∷ xs) f = elim (Bool-cases (u.same x.0 id)) [
    | inl is ↦ rw is (Fresh-erase k id xs f.1)
    | inr apart ↦ rw apart (f.0, Fresh-erase k id xs f.1)
  ]

  pub Distinct-erase : (id : Uuid) (m : Map V) → Distinct u m → Distinct u (erase u id m)
  Distinct-erase id [] d = tt
  Distinct-erase id (x ∷ xs) d = elim (Bool-cases (u.same x.0 id)) [
    | inl is ↦ rw is (Distinct-erase id xs d.1)
    | inr apart ↦ rw apart (Fresh-erase x.0 id xs d.0, Distinct-erase id xs d.1)
  ]

  pub lookup-assign_self : (id : Uuid) (v : V) (m : Map V) → lookup u id (assign u id v m) ≡ some v
  lookup-assign_self id v [] = rw (same_self u id) refl
  lookup-assign_self id v (x ∷ xs) = elim (Bool-cases (u.same x.0 id)) [
    | inl is ↦ rw (is, is) refl
    | inr apart ↦ rw (apart, apart) (lookup-assign_self id v xs)
  ]

  pub lookup-assign_other :
      (k id : Uuid) (v : V) (m : Map V)
      → u.same k id ≡ false
      → lookup u id (assign u k v m) ≡ lookup u id m
  lookup-assign_other k id v [] h = rw h refl
  lookup-assign_other k id v (x ∷ xs) h = elim (Bool-cases (u.same x.0 k)) [
    | inr apart ↦ rw (apart, lookup-assign_other k id v xs h) refl
    | inl is ↦ let other = ap (λ y. u.same y id) (same-eq u x.0 k is) ∙ h in rw (is, other) refl
  ]

  Distinct-erase_all : (ids : List Uuid) (m : Map V) → Distinct u m → Distinct u (erase_all u ids m)
  Distinct-erase_all [] m d = d
  Distinct-erase_all (id ∷ ids) m d = Distinct-erase_all ids (erase u id m) (Distinct-erase id m d)

module _ (u : Uuids) (same : NetworkIdentity → NetworkIdentity → Bool) where
  -- What is called on a mailbox, in any order.
  pub data Reach : TransferMailbox → Type 0 where
    here : Reach reset
    queued :
        (e : AtlasEntity) (sender : NetworkIdentity) (time : ℕ) (m : TransferMailbox)
        → Reach m
        → Reach (queue_incoming u same e sender time m)
    adopted :
        (self : NetworkIdentity) (now : ℕ) (m : TransferMailbox)
        → Reach m
        → Reach (adopt_incoming_if_due u same self now m).2
    added :
        (h : PendingOutgoingHandoff) (m : TransferMailbox)
        → Reach m
        → Reach (add_pending_outgoing u same h m)
    committed :
        (self : NetworkIdentity) (now : ℕ) (t : Tracker) (m : TransferMailbox)
        → Reach m
        → Reach (commit_outgoing_if_due u same self now t m).3
    cleared : (m : TransferMailbox) → Reach m → Reach (clear_pending_outgoing m)

  -- Whatever has been called on a mailbox, no entity has two handoffs in either of its maps.
  pub Reach-Distinct :
      (m : TransferMailbox) → Reach m → Distinct u m.incoming × Distinct u m.outgoing
  unfolding queue_incoming adopt_incoming_if_due add_pending_outgoing commit_outgoing_if_due
      clear_pending_outgoing
  Reach-Distinct m here = (tt, tt)
  Reach-Distinct m (queued e sender time s r) =
      let (i, o) = Reach-Distinct s r in (Distinct-assign u (id_of e) _ s.incoming i, o)
  Reach-Distinct m (adopted self now s r) =
      let (i, o) = Reach-Distinct s r in
      elim (Bool-cases (has_pending_incoming s)) [
        | inr idle ↦ rw idle (i, o)
        | inl busy ↦
            rw busy (Distinct-erase_all u (adopt_each self now s.incoming).ids s.incoming i, o)
      ]
  Reach-Distinct m (added h s r) =
      let (i, o) = Reach-Distinct s r in (i, Distinct-assign u h.entity_id h s.outgoing o)
  Reach-Distinct m (committed self now t s r) =
      let (i, o) = Reach-Distinct s r in
      let c = commit_each u same self now s.outgoing t in
      elim (Bool-cases (has_pending_outgoing s)) [
        | inr idle ↦ rw idle (i, o)
        | inl busy ↦ rw busy (
          i,
          Distinct-erase_all u c.canceled (erase_all u c.committed s.outgoing)
              (Distinct-erase_all u c.committed s.outgoing o),
        )
      ]
  Reach-Distinct m (cleared s r) = ((Reach-Distinct s r).0, tt)
