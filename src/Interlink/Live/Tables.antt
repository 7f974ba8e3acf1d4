-- ===== src/Interlink/Live/Tables.antt =====
-- The states of the connections under the operations of the table and `GenerateNewConnections`.
use atlas_net.Prelude.{
  ℕ, suc, ◌≡◌, ◌≢◌, Bool, true, List, [], ◌∷◌, All, All-append, Option, some, none, Bool-cases,
  some-cancel, inl, inr,
}
use mathlib.Core.Path.{subst}
use atlas_net.Network.Identity.{NetworkIdentity}
use atlas_net.Interlink.Connection.{Connection, is_pre_connecting}
use atlas_net.Interlink.Table.{has_handle, modify_handle, erase_handle, find_target, erase_target}
use atlas_net.Interlink.State.{Interlink}
use atlas_net.Interlink.Send.{insert}
use atlas_net.Interlink.Callbacks.{connect_one, connect_all}
use atlas_net.Interlink.Live.{Live, IsLive}

pub has_handle-steam : (h : ℕ) (c : Connection) → has_handle h c ≡ true → c.steam ≢ none
unfolding has_handle
has_handle-steam h c is e = cc

pub modify_handle-Live :
    (h : ℕ) (f : Connection → Connection) (cs : List Connection)
    → ((c : Connection) → c.steam ≢ none → Live c → Live (f c))
    → All Live cs
    → All Live (modify_handle h f cs)
unfolding modify_handle
modify_handle-Live h f [] keep v = tt
modify_handle-Live h f (c ∷ cs) keep v = elim (Bool-cases (has_handle h c)) [
  | inl is ↦ rw is (keep c (has_handle-steam h c is) v.0, v.1)
  | inr other ↦ rw other (v.0, modify_handle-Live h f cs keep v.1)
]

pub erase_handle-Live : (h : ℕ) (cs : List Connection) → All Live cs → All Live (erase_handle h cs)
unfolding erase_handle
erase_handle-Live h [] v = tt
erase_handle-Live h (c ∷ cs) v = elim (Bool-cases (has_handle h c)) [
  | inl is ↦ rw is v.1
  | inr other ↦ rw other (v.0, erase_handle-Live h cs v.1)
]

pub connect_one-Live : (a : Option ℕ) (c : Connection) → Live c → Live (connect_one a c)
unfolding connect_one
connect_one-Live none c v = v
connect_one-Live (some h) c (inl p) = inl p
connect_one-Live (some h) c (inr (p, q)) = inr (p, λ e. cc)

pub connect_all-Live :
    (answer : ℕ → Option ℕ) (n : ℕ) (cs : List Connection)
    → All Live cs
    → All Live (connect_all answer n cs).0
unfolding connect_all
connect_all-Live answer n [] v = tt
connect_all-Live answer n (c ∷ cs) v = elim (Bool-cases (is_pre_connecting c.state)) [
  | inl first ↦ rw first (connect_one-Live (answer n) c v.0, connect_all-Live answer (suc n) cs v.1)
  | inr other ↦ rw other (v.0, connect_all-Live answer n cs v.1)
]

pub insert-Live : (c : Connection) (s : Interlink) → Live c → IsLive s → IsLive (insert c s)
unfolding insert
insert-Live c s v vs = All-append Live s.connections (c ∷ []) vs (v, tt)

module _ (same : NetworkIdentity → NetworkIdentity → Bool) where
  pub find_target-Live :
      (who : NetworkIdentity) (cs : List Connection) (c : Connection)
      → All Live cs
      → find_target same who cs ≡ some c
      → Live c
  unfolding find_target
  find_target-Live who [] c v e = cc
  find_target-Live who (x ∷ xs) c v e = elim (Bool-cases (same x.target who)) [
    | inl is ↦ subst Live (some-cancel (rw is at e)) v.0
    | inr other ↦ find_target-Live who xs c v.1 (rw other at e)
  ]

  pub erase_target-Live :
      (who : NetworkIdentity) (cs : List Connection)
      → All Live cs
      → All Live (erase_target same who cs)
  unfolding erase_target
  erase_target-Live who [] v = tt
  erase_target-Live who (c ∷ cs) v = elim (Bool-cases (same c.target who)) [
    | inl is ↦ rw is v.1
    | inr other ↦ rw other (v.0, erase_target-Live who cs v.1)
  ]
