-- ===== src/Interlink/Live/Reports.antt =====
-- The states of the connections when the transport reports.
use atlas_net.Prelude.{
  ℕ, ◌≢◌, refl, ◌==◌, Bool, true, false, List, [], ◌∷◌, length, Option, none, Option-cases, inl,
  inr,
}
use atlas_net.Network.Identity.{NetworkIdentity, is_internal, is_nil, e_game_client}
use atlas_net.Interlink.Run.{
  done, undefined_run, After, After-bind, After-any, After-if, After-option, ◌>>=◌,
}
use atlas_net.Interlink.Connection.{
  Connection, connecting, connected, set_new_state, Address, is_connected, is_pre_connecting,
  is_connecting,
}
use atlas_net.Interlink.Table.{find_handle}
use atlas_net.Interlink.State.{Interlink, Waiting, call, queue_of, queue_erase}
use atlas_net.Interlink.Send.{Lookup, send_message}
use atlas_net.Interlink.Callbacks.{
  modify, remote_identity, on_incoming, callback_on_connecting, callback_on_closed_by_peer,
  callback_on_problem_detected_locally, announce_client, assign_identity, on_client_connected,
  flush_loop, flush, flush_handle, callback_on_connected, Report, reports_connecting,
  reports_connected, reports_closed_by_peer, reports_problem, reports_other,
  on_connection_status_changed,
}
use atlas_net.Interlink.Live.{Live, IsLive}
use atlas_net.Interlink.Live.Tables.{modify_handle-Live, erase_handle-Live, insert-Live}
use atlas_net.Interlink.Live.Sending.{send_message-Live}

module _ (same : NetworkIdentity → NetworkIdentity → Bool) (lookup : Lookup) where
  pub flush_loop-Live :
      (who : NetworkIdentity) (ms : List Waiting) (s : Interlink)
      → IsLive s
      → After IsLive (flush_loop same lookup who ms s)
  unfolding flush_loop
  flush_loop-Live who [] s v = v
  flush_loop-Live who (m ∷ ms) s v =
      After-bind IsLive IsLive (send_message same lookup who m s) _
        (send_message-Live same lookup who m s v)
        (λ t w.
          After-if IsLive
            (length (queue_of same who t.queued) == length (queue_of same who s.queued)) _
            undefined_run (λ fine. flush_loop-Live who ms t w) (λ grown. tt))

  pub flush-Live :
      (who : NetworkIdentity) (s : Interlink) → IsLive s → After IsLive (flush same lookup who s)
  unfolding flush
  flush-Live who s v = flush_of (queue_of same who s.queued)
    where
      flush_of :
          (ms : List Waiting)
          → After IsLive (elim ms [
            | [] ↦ done s
            | m ∷ ms' ↦ flush_loop same lookup who (m ∷ ms') s >>= λ t.
                done (record t { queued = queue_erase same who t.queued })
          ])
      flush_of [] = v
      flush_of (m ∷ ms) =
          After-bind IsLive IsLive (flush_loop same lookup who (m ∷ ms) s) _
            (flush_loop-Live who (m ∷ ms) s v) (λ t w. w)

  pub flush_handle-Live :
      (h : ℕ) (s : Interlink) → IsLive s → After IsLive (flush_handle same lookup h s)
  unfolding flush_handle
  flush_handle-Live h s v =
      After-option IsLive (find_handle h s.connections) _ _ (λ gone. tt)
        (λ c there. flush-Live c.target s v)

  pub modify-Live :
      (h : ℕ) (f : Connection → Connection) (s : Interlink)
      → ((c : Connection) → c.steam ≢ none → Live c → Live (f c))
      → IsLive s
      → IsLive (modify h f s)
  unfolding modify
  modify-Live h f s keep v = modify_handle-Live h f s.connections keep v

  pub assign_identity-Live :
      (h : ℕ) (n : NetworkIdentity) (c : Connection) (s : Interlink)
      → IsLive s
      → After IsLive (assign_identity same lookup h n c s)
  unfolding assign_identity announce_client call
  assign_identity-Live h n c s v =
      After-bind IsLive IsLive (send_message same lookup n _ _) _
        (send_message-Live same lookup n _ _ (modify-Live h _ s (λ k set live. live) v)) (λ t w. w)

  pub on_client_connected-Live :
      (h : ℕ) (id : List ℕ) (c : Connection) (s : Interlink)
      → IsLive s
      → After IsLive (on_client_connected same lookup h id c s)
  unfolding on_client_connected
  on_client_connected-Live h id c s v =
      After-if IsLive (c.target.type == e_game_client) _ _
        (λ client.
          After-if IsLive (is_nil c.target.id) _ _ (λ nameless. assign_identity-Live h _ c s v)
            (λ named. v))
        (λ other. tt)

  pub incoming-Live :
      (h : ℕ) (address : Address) (n : NetworkIdentity) (accepted : Bool) (s : Interlink)
      → IsLive s
      → IsLive (on_incoming h address n accepted s)
  unfolding on_incoming call set_new_state is_connecting is_pre_connecting
  incoming-Live h address n true s v = insert-Live _ _ (inl refl) v
  incoming-Live h address n false s v = v

  pub closed-Live : (h : ℕ) (s : Interlink) → IsLive s → IsLive (callback_on_closed_by_peer h s)
  unfolding callback_on_closed_by_peer call
  closed-Live h s v = elim (Option-cases (find_handle h s.connections)) [
    | inl unknown ↦ rw (callback_on_closed_by_peer, unknown) v
    | inr (c, known) ↦ rw (callback_on_closed_by_peer, known) (erase_handle-Live h s.connections v)
  ]

  pub problem-Live :
      (h : ℕ) (s : Interlink) → IsLive s → IsLive (callback_on_problem_detected_locally h s)
  unfolding callback_on_problem_detected_locally
  problem-Live h s v = elim (Option-cases (find_handle h s.connections)) [
    | inl unknown ↦ rw (callback_on_problem_detected_locally, unknown) v
    | inr (c, known) ↦
        rw (callback_on_problem_detected_locally, known) (erase_handle-Live h s.connections v)
  ]

  pub Live-connected : (c : Connection) → c.steam ≢ none → Live c → Live (set_new_state connected c)
  unfolding set_new_state is_connected
  Live-connected c set live = inr (refl, set)

  pub Live-connecting :
      (c : Connection) → c.steam ≢ none → Live c → Live (set_new_state connecting c)
  unfolding set_new_state is_connecting is_pre_connecting
  Live-connecting c set live = inl refl

  pub connected-Live :
      (h : ℕ) (bytes : Option (List ℕ)) (id : List ℕ) (s : Interlink)
      → IsLive s
      → After IsLive (callback_on_connected same lookup h bytes id s)
  unfolding callback_on_connected call
  connected-Live h bytes id s v =
      After-option IsLive (find_handle h s.connections) _ _
        (λ unknown.
          After-bind (λ n. Unit {0}) IsLive (remote_identity bytes) _
            (After-any (remote_identity bytes)) (λ n u. tt))
        (λ c known.
          let w = modify-Live h (set_new_state connected) s Live-connected v in
          After-if IsLive (is_internal c.target) _ _ (λ inside. flush_handle-Live h _ w)
            (λ outside.
              After-bind IsLive IsLive (on_client_connected same lookup h id _ _) _
                (on_client_connected-Live h id _ _ w) (flush_handle-Live h)))

  pub connecting-Live :
      (h : ℕ) (address : Address) (bytes : Option (List ℕ)) (accepted : Bool) (s : Interlink)
      → IsLive s
      → After IsLive (callback_on_connecting h address bytes accepted s)
  unfolding callback_on_connecting
  connecting-Live h address bytes accepted s v =
      After-option IsLive (find_handle h s.connections) _ _
        (λ unknown.
          After-bind (λ n. Unit {0}) IsLive (remote_identity bytes) _
            (After-any (remote_identity bytes)) (λ n u. incoming-Live h address n accepted s v))
        (λ c known. modify-Live h (set_new_state connecting) s Live-connecting v)

  pub reports-Live :
      (r : Report) (s : Interlink)
      → IsLive s
      → After IsLive (on_connection_status_changed same lookup r s)
  unfolding on_connection_status_changed
  reports-Live (reports_connecting h address bytes accepted) s v =
      connecting-Live h address bytes accepted s v
  reports-Live (reports_connected h bytes id) s v = connected-Live h bytes id s v
  reports-Live (reports_closed_by_peer h) s v = closed-Live h s v
  reports-Live (reports_problem h) s v = problem-Live h s v
  reports-Live reports_other s v = v
