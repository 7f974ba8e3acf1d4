-- ===== src/Interlink/Crowded.antt =====
-- Two connections with the same target, as `CallbackOnConnecting` lets them come in.
use atlas_net.Prelude.{
  ℕ, ◌≡◌, inl, inr, refl, sym, ap, ◌∙◌, ◌==◌, Bool, true, false, Option, some, List, [], ◌∷◌, ◌++◌,
  length, length-append, Bool-cases, arith,
}
use atlas_net.Network.Identity.{NetworkIdentity, is_internal}
use atlas_net.Interlink.Run.{
  Run, done, undefined_run, ◌>>=◌, if-true, if-false, elim-some, bind-done,
}
use atlas_net.Interlink.Connection.{Connection, connected, set_new_state, is_connected, is_pending}
use atlas_net.Interlink.Table.{has_handle, find_handle, find_target}
use atlas_net.Interlink.State.{Interlink, Waiting, Queues, call, queue_of, queue_push, queue_erase}
use atlas_net.Interlink.Send.{Lookup, queue_message, route, send_message}
use atlas_net.Interlink.Callbacks.{modify, flush_loop, flush, callback_on_connected}
use atlas_net.Interlink.Mailbox.{apart}
use atlas_net.Interlink.Queues.{true-ne-false}
use atlas_net.Interlink.Finding.{find_target-modify_other}
use atlas_net.Interlink.Flush.{to_flush, now_connected, IsValidWaiting}

pending_apart : (d : Connection) → is_pending d.state ≡ true → is_connected d.state ≡ false
pending_apart d soon = elim (Bool-cases (is_connected d.state)) [
  | inl there ↦ absurd (true-ne-false (sym soon ∙ apart d.state there))
  | inr away ↦ away
]

longer : (ms : List Waiting) (m : Waiting) → (length (ms ++ m ∷ []) == length ms) ≡ false
longer ms m = ground (arith, length-append ms (m ∷ []))

set_new_state-target : (c : Connection) → (set_new_state connected c).target ≡ c.target
unfolding set_new_state
set_new_state-target c = refl

module _ (same : NetworkIdentity → NetworkIdentity → Bool)
    (same_refl : (n : NetworkIdentity) → same n n ≡ true) where
  queue_of-push :
      (who : NetworkIdentity) (m : Waiting) (q : Queues)
      → queue_of same who (queue_push same who m q) ≡ queue_of same who q ++ m ∷ []
  unfolding queue_of queue_push
  queue_of-push who m [] = rw (same_refl who) refl
  queue_of-push who m ((k, ms) ∷ rest) = elim (Bool-cases (same k who)) [
    | inl is ↦ rw is (rw is refl)
    | inr other ↦ rw (other, queue_of, other) (queue_of-push who m rest)
  ]

  abbrev emptied : NetworkIdentity → Interlink → Run Interlink
  emptied who u = done (record u { queued = queue_erase same who u.queued })

  module _ (lookup : Lookup) (h : ℕ) (c d : Connection) (s : Interlink) where
    -- The transport reports a connection to another process connected, but an earlier connection in
    -- the table has the same target and is still under way. If a packet waits for the target and the
    -- first one validates, the loop over the waiting packets puts it back into the vector that it
    -- runs over, and its iterators dangle.
    pub callback_on_connected_undefined :
        (bytes : Option (List ℕ)) (id : List ℕ) (m : Waiting) (ms : List Waiting)
        → s.is_init ≡ true
        → find_handle h s.connections ≡ some c
        → is_internal c.target ≡ true
        → find_target same c.target s.connections ≡ some d
        → has_handle h d ≡ false
        → is_pending d.state ≡ true
        → queue_of same c.target s.queued ≡ m ∷ ms
        → IsValidWaiting m
        → callback_on_connected same lookup h bytes id s ≡ undefined_run
    unfolding flush flush_loop send_message route queue_message call modify
    callback_on_connected_undefined bytes id m ms up found inside known other soon waits valid =
        let t = now_connected same lookup h c s up found inside in
        to_flush same lookup h c s up found inside bytes id
        ∙ ap
            (λ q. elim q [
              | [] ↦ done t
              | x ∷ xs ↦ flush_loop same lookup c.target (x ∷ xs) t >>= emptied c.target
            ])
            waits
        ∙ ap (λ r. r >>= emptied c.target)
            (bind-done _ (queue_message same c.target m t) (
                if-true _ _ up
                ∙ if-true _ _ valid
                ∙ elim-some _ _ d (
                    find_target-modify_other same c.target h (set_new_state connected) s.connections
                      d (λ x. set_new_state-target x) other known)
                ∙ if-false _ _ (pending_apart d soon)
                ∙ if-true _ _ soon)
              ∙ if-false _ _ (
                  ap (λ q. length q == length (queue_of same c.target s.queued))
                    (queue_of-push c.target m s.queued)
                  ∙ longer (queue_of same c.target s.queued) m))
