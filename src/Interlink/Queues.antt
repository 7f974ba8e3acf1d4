-- ===== src/Interlink/Queues.antt =====
-- The packets that wait in `QueuedPacketsOnConnect`, target by target.
use atlas_net.Prelude.{
  ◌≡◌, ◌≢◌, inl, inr, refl, sym, ◌∙◌, Bool, true, false, List, [], ◌∷◌, ◌++◌, append-nil,
  if◌then◌else◌, Bool-cases,
}
use atlas_net.Network.Identity.{NetworkIdentity}
use atlas_net.Interlink.State.{Waiting, Queues, queue_of, queue_push, queue_erase}

pub true-ne-false : true ≢ false
true-ne-false e = cc

module _ (same : NetworkIdentity → NetworkIdentity → Bool) where
  pub queue_of-erase :
      (who : NetworkIdentity) (q : Queues) → queue_of same who (queue_erase same who q) ≡ []
  unfolding queue_of queue_erase
  queue_of-erase who [] = refl
  queue_of-erase who ((k, ms) ∷ rest) = elim (Bool-cases (same k who)) [
    | inl is ↦ rw is (queue_of-erase who rest)
    | inr other ↦ rw (other, queue_of, other) (queue_of-erase who rest)
  ]

  module _ (same_refl : (n : NetworkIdentity) → same n n ≡ true)
      (same_both : (a b n : NetworkIdentity) → same a b ≡ true → same a n ≡ same b n) where
    -- Under an identity that is the same as the target one packet more waits, behind the others, and
    -- under another identity what waited before.
    abbrev pub added : NetworkIdentity → Waiting → NetworkIdentity → List Waiting
    added who m k = if same who k then m ∷ [] else []

    apart_from : (a b k : NetworkIdentity) → same a b ≡ false → same a k ≡ true → same b k ≡ false
    apart_from a b k off is = elim (Bool-cases (same b k)) [
      | inr fine ↦ fine
      | inl too ↦
          absurd (
            true-ne-false
              (sym (same_refl b) ∙ same_both b k b too ∙ sym (same_both a k b is) ∙ off))
    ]

    pub queue_of-push_each :
        (who k : NetworkIdentity) (m : Waiting) (q : Queues)
        → queue_of same k (queue_push same who m q) ≡ queue_of same k q ++ added who m k
    unfolding queue_of queue_push
    queue_of-push_each who k m [] = refl
    queue_of-push_each who k m ((x, ms) ∷ rest) = elim (Bool-cases (same x who)) [
      | inl is ↦ elim (Bool-cases (same x k)) [
        | inl here ↦
            let for_who = sym (same_both x who k is) ∙ here in rw (is, queue_of, here, for_who) refl
        | inr away ↦
            let for_who = sym (same_both x who k is) ∙ away in
            rw (is, queue_of, away, for_who) (sym (append-nil (queue_of same k rest)))
      ]
      | inr off ↦ elim (Bool-cases (same x k)) [
        | inl here ↦ rw (off, queue_of, here, apart_from x who k off here) (sym (append-nil ms))
        | inr away ↦ rw (off, queue_of, away) (queue_of-push_each who k m rest)
      ]
    ]
