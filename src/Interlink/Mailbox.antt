-- ===== src/Interlink/Mailbox.antt =====
-- What `SendMessage` does with a packet.
use atlas_net.Prelude.{
  ℕ, ◌≡◌, ◌≢◌, ◌⊎◌, [], ◌∷◌, ◌++◌, inl, inr, refl, sym, ap, ◌∙◌, ◌==◌, Bool, true, false, Option,
  some, none, Bool-cases, Option-cases, if◌then◌else◌,
}
use atlas_net.Bytes.Writer
use atlas_net.Network.Identity.{NetworkIdentity, is_internal, e_game_client}
use atlas_net.Packets.Packet.{serialize, validate}
use atlas_net.Interlink.Run.{Run, done, if-true, if-false, elim-none, elim-some, bind-done}
use atlas_net.Interlink.Connection.{
  Connection, ConnectionState, invalid, pre_connecting, connecting, connected, disconnecting,
  closed, error, is_connected, is_pending, is_pre_connecting, is_connecting,
}
use atlas_net.Interlink.Table.{find_target}
use atlas_net.Interlink.State.{Interlink, Waiting, send, call, queue_of, queue_push}
use atlas_net.Interlink.Queues.{true-ne-false, queue_of-push_each}
use atlas_net.Interlink.Send.{
  Lookup, ask, insert, under_way, establish_new, establish_connection_to, queue_message,
  establish_and_queue, send_over, route, send_message,
}
use atlas_net.Interlink.Live.{Live, IsLive}
use atlas_net.Interlink.Live.Tables.{find_target-Live}

pub apart : (st : Option ConnectionState) → is_connected st ≡ true → is_pending st ≡ false
unfolding is_connected is_pre_connecting is_connecting
apart none e = refl
apart (some invalid) e = refl
apart (some pre_connecting) e = cc
apart (some connecting) e = cc
apart (some connected) e = refl
apart (some disconnecting) e = refl
apart (some closed) e = refl
apart (some error) e = refl

handled : (c : Connection) → is_connected c.state ≡ true → Live c → c.steam ≢ none
handled c there (inl soon) = absurd (true-ne-false (sym soon ∙ apart c.state there))
handled c there (inr (_, set)) = set

abbrev pub connected_to : Option Connection → Bool
connected_to none = false
connected_to (some c) = is_connected c.state

module _ (same : NetworkIdentity → NetworkIdentity → Bool) (lookup : Lookup) (who : NetworkIdentity)
    (m : Waiting) (s : Interlink) where
  -- `Connections` has the target, and what it finds first is connected.
  abbrev pub has_connected : Bool
  has_connected = connected_to (find_target same who s.connections)

  -- The transport is handed the bytes over a connection that is there, and nothing else changes.
  abbrev pub Sent : Type 0
  Sent =
      (c : Connection) × (h : ℕ) × (find_target same who s.connections ≡ some c)
      × (is_connected c.state ≡ true)
      × (c.steam ≡ some h)
      × (send_message same lookup who m s
          ≡ done (record s { calls = s.calls ++ send h (serialize m.0 Writer.new).buf m.1 ∷ [] }))

  -- No connection is there. The packet waits behind those that wait for the same target, for the other
  -- targets the same wait as before, and the transport is not called.
  abbrev pub Queued : Type 0
  Queued =
      (t : Interlink) × (has_connected ≡ false)
      × (send_message same lookup who m s ≡ done t)
      × ((k : NetworkIdentity)
          → queue_of same k t.queued
            ≡ queue_of same k s.queued ++ (if same who k then m ∷ [] else []))
      × (t.calls ≡ s.calls)

  abbrev QueuedBy : Run Interlink → Type 0
  QueuedBy r =
      (t : Interlink) × (r ≡ done t)
      × (t.queued ≡ queue_push same who m s.queued)
      × (t.calls ≡ s.calls)

  establish_new_keeps :
      ((establish_new same lookup who s).1.queued ≡ s.queued)
      × ((establish_new same lookup who s).1.calls ≡ s.calls)
  unfolding establish_new insert
  establish_new_keeps = elim (Bool-cases (is_internal who)) [
    | inl inside ↦ elim (Option-cases (ask lookup who 0 5)) [
      | inl unknown ↦ rw (inside, unknown) (refl, refl)
      | inr (a, known) ↦ rw (inside, known) (refl, refl)
    ]
    | inr outside ↦ elim (Bool-cases (who.type == e_game_client)) [
      | inl client ↦ rw (outside, client) (refl, refl)
      | inr strange ↦ rw (outside, strange) (refl, refl)
    ]
  ]

  module _ (process : (s.self_id.type == e_game_client) ≡ false) where
    establish_and_queue_lem : QueuedBy (establish_and_queue same lookup who m s)
    unfolding establish_and_queue establish_connection_to queue_message
    establish_and_queue_lem = elim (Bool-cases (under_way same who s)) [
      | inl there ↦ (
        queue_message same who m s,
        bind-done _ (true, s) (if-false _ _ process ∙ if-true _ _ there),
        refl,
        refl,
      )
      | inr new ↦ (
        queue_message same who m (establish_new same lookup who s).1,
        bind-done _ (establish_new same lookup who s) (if-false _ _ process ∙ if-false _ _ new),
        ap (queue_push same who m) establish_new_keeps.0,
        establish_new_keeps.1,
      )
    ]

    module _ (up : s.is_init ≡ true) (valid : validate m.0 ≡ true) where
      routed : send_message same lookup who m s ≡ route same lookup who m s
      unfolding send_message
      routed = if-true _ _ up ∙ if-true _ _ valid

      to_known :
          (c : Connection)
          → find_target same who s.connections ≡ some c
          → send_message same lookup who m s ≡ (
              if is_connected c.state
              then send_over same c m s
              else if is_pending c.state
              then done (queue_message same who m s)
              else establish_and_queue same lookup who m s)
      unfolding route
      to_known c known = routed ∙ elim-some _ _ c known

      known_lem :
          (c : Connection)
          → find_target same who s.connections ≡ some c
          → Live c
          → Sent ⊎ ((has_connected ≡ false) × QueuedBy (send_message same lookup who m s))
      unfolding send_over queue_message call
      known_lem c known live = elim (Bool-cases (is_connected c.state)) [
        | inl there ↦ elim (Option-cases c.steam) [
          | inl unset ↦ absurd (handled c there live unset)
          | inr (h, set) ↦
              inl (
                c,
                h,
                known,
                there,
                set,
                to_known c known ∙ if-true _ _ there ∙ elim-some _ _ h set,
              )
        ]
        | inr away ↦ elim (Bool-cases (is_pending c.state)) [
          | inl soon ↦ inr (
            ap connected_to known ∙ away,
            (
              queue_message same who m s,
              to_known c known ∙ if-false _ _ away ∙ if-true _ _ soon,
              refl,
              refl,
            ),
          )
          | inr gone ↦
              let (t, e, q, k) = establish_and_queue_lem in
              inr (
                ap connected_to known ∙ away,
                (t, to_known c known ∙ if-false _ _ away ∙ if-false _ _ gone ∙ e, q, k),
              )
        ]
      ]

  module _ (same_refl : (n : NetworkIdentity) → same n n ≡ true)
      (same_both : (a b n : NetworkIdentity) → same a b ≡ true → same a n ≡ same b n) where
    waits_as :
        (t : Interlink)
        → t.queued ≡ queue_push same who m s.queued
        → (k : NetworkIdentity)
        → queue_of same k t.queued ≡ queue_of same k s.queued ++ (if same who k then m ∷ [] else [])
    waits_as t e k =
        ap (queue_of same k) e ∙ queue_of-push_each same same_refl same_both who k m s.queued

  -- Where `Interlink` is initialised, the process is not a game client, the packet validates and every
  -- connection is under way with a handle if it is connected, and identities that are the same are the
  -- same as the same others: if the connection that is found for the target is connected, the transport
  -- is handed the bytes that `Serialize` writes, over that connection, and nothing else changes; and
  -- otherwise the packet waits behind those that wait for the same target, nothing changes for the other
  -- targets, and the transport is not called.
  pub send_message_lem :
      ((n : NetworkIdentity) → same n n ≡ true)
      → ((a b n : NetworkIdentity) → same a b ≡ true → same a n ≡ same b n)
      → s.is_init ≡ true
      → (s.self_id.type == e_game_client) ≡ false
      → validate m.0 ≡ true
      → IsLive s
      → Sent ⊎ Queued
  unfolding route
  send_message_lem same_refl same_both up process valid live =
      elim (Option-cases (find_target same who s.connections)) [
        | inl unknown ↦
            let (t, e, q, c) = establish_and_queue_lem process in
            inr (
              t,
              ap connected_to unknown,
              routed process up valid ∙ elim-none _ _ unknown ∙ e,
              waits_as same_refl same_both t q,
              c,
            )
        | inr (c, known) ↦
            elim (known_lem process up valid c known
              (find_target-Live same who s.connections c live known)) [
                | inl gone ↦ inl gone
                | inr (away, (t, e, q, k)) ↦ inr (t, away, e, waits_as same_refl same_both t q, k)
              ]
      ]
