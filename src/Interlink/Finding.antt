-- ===== src/Interlink/Finding.antt =====
-- What the indices of `Connections` find after a connection has been modified in place.
use atlas_net.Prelude.{
  ℕ, ◌≡◌, inl, inr, sym, ap, ◌∙◌, Bool, true, false, some, List, [], ◌∷◌, Bool-cases, some-cancel,
}
use atlas_net.Network.Identity.{NetworkIdentity}
use atlas_net.Interlink.Run.{if-true, if-false}
use atlas_net.Interlink.Connection.{Connection}
use atlas_net.Interlink.Table.{has_handle, find_handle, modify_handle, find_target}
use atlas_net.Interlink.Queues.{true-ne-false}

pub find_handle-has :
    (h : ℕ) (cs : List Connection) (c : Connection)
    → find_handle h cs ≡ some c
    → has_handle h c ≡ true
unfolding find_handle
find_handle-has h [] c e = cc
find_handle-has h (x ∷ xs) c e = elim (Bool-cases (has_handle h x)) [
  | inl is ↦ ap (has_handle h) (sym (some-cancel (rw is at e))) ∙ is
  | inr other ↦ find_handle-has h xs c (rw other at e)
]

has_handle-modified :
    (h : ℕ) (f : Connection → Connection) (x : Connection)
    → (f x).steam ≡ x.steam
    → has_handle h x ≡ true
    → has_handle h (f x) ≡ true
unfolding has_handle
has_handle-modified h f x keep is = rw keep is

pub find_handle-modify :
    (h : ℕ) (f : Connection → Connection) (cs : List Connection) (c : Connection)
    → ((x : Connection) → (f x).steam ≡ x.steam)
    → find_handle h cs ≡ some c
    → find_handle h (modify_handle h f cs) ≡ some (f c)
unfolding find_handle modify_handle
find_handle-modify h f [] c keep e = cc
find_handle-modify h f (x ∷ xs) c keep e = elim (Bool-cases (has_handle h x)) [
  | inl is ↦ rw is (
      if-true _ _ (has_handle-modified h f x (keep x) is)
      ∙ ap (λ y. some (f y)) (some-cancel (rw is at e)))
  | inr other ↦ rw (other, find_handle, other) (find_handle-modify h f xs c keep (rw other at e))
]

module _ (same : NetworkIdentity → NetworkIdentity → Bool) where
  pub find_target-same :
      (who : NetworkIdentity) (cs : List Connection) (c : Connection)
      → find_target same who cs ≡ some c
      → same c.target who ≡ true
  unfolding find_target
  find_target-same who [] c e = cc
  find_target-same who (x ∷ xs) c e = elim (Bool-cases (same x.target who)) [
    | inl is ↦ ap (λ y. same y.target who) (sym (some-cancel (rw is at e))) ∙ is
    | inr other ↦ find_target-same who xs c (rw other at e)
  ]

  -- The connection that is modified is the one that its target leads to.
  pub find_target-modify :
      (who : NetworkIdentity) (h : ℕ) (f : Connection → Connection) (cs : List Connection)
      (c : Connection)
      → ((x : Connection) → (f x).target ≡ x.target)
      → find_handle h cs ≡ some c
      → find_target same who cs ≡ some c
      → find_target same who (modify_handle h f cs) ≡ some (f c)
  unfolding find_target modify_handle find_handle
  find_target-modify who h f [] c keep e g = cc
  find_target-modify who h f (x ∷ xs) c keep e g = elim (Bool-cases (has_handle h x)) [
    | inl is ↦
        let xc = some-cancel (rw is at e) in
        rw is (
          if-true _ _ (
            ap (λ t. same t who) (keep x)
            ∙ ap (λ y. same y.target who) xc
            ∙ find_target-same who (x ∷ xs) c g)
          ∙ ap (λ y. some (f y)) xc)
    | inr other ↦ elim (Bool-cases (same x.target who)) [
      | inl here ↦ absurd (
          true-ne-false (
            sym (find_handle-has h xs c (rw other at e))
            ∙ ap (has_handle h) (sym (some-cancel (rw here at g)))
            ∙ other))
      | inr away ↦
          rw (other, find_target, away)
            (find_target-modify who h f xs c keep (rw other at e) (rw away at g))
    ]
  ]

  -- The connection that is modified is another one than its target leads to.
  pub find_target-modify_other :
      (who : NetworkIdentity) (h : ℕ) (f : Connection → Connection) (cs : List Connection)
      (d : Connection)
      → ((x : Connection) → (f x).target ≡ x.target)
      → has_handle h d ≡ false
      → find_target same who cs ≡ some d
      → find_target same who (modify_handle h f cs) ≡ some d
  unfolding find_target modify_handle
  find_target-modify_other who h f [] d keep lacks g = cc
  find_target-modify_other who h f (x ∷ xs) d keep lacks g = elim (Bool-cases (same x.target who)) [
    | inl here ↦
        let xd = some-cancel (rw here at g) in
        rw (ap (has_handle h) xd ∙ lacks) (rw here (ap some xd))
    | inr away ↦ elim (Bool-cases (has_handle h x)) [
      | inl is ↦ rw is (if-false _ _ (ap (λ t. same t who) (keep x) ∙ away) ∙ rw away at g)
      | inr other ↦
          rw (other, find_target, away)
            (find_target-modify_other who h f xs d keep lacks (rw away at g))
    ]
  ]
