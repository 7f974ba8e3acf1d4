-- ===== src/Interlink/Establish.antt =====
-- The questions that `EstablishConnectionTo` puts to the server registry.
use atlas_net.Prelude.{
  ℕ, zero, suc, ◌+◌, ◌≤◌, ◌≡◌, ◌⊎◌, inl, inr, refl, sym, ap, ◌∙◌, ◌==◌, Bool, true, false, some,
  none, Option-cases, arith,
}
use atlas_net.Network.Identity.{NetworkIdentity, is_internal, e_game_client}
use atlas_net.Interlink.Run.{done, if-true, if-false, elim-none, elim-some}
use atlas_net.Interlink.Connection.{Address, pre_connecting, make, set_new_state, internal}
use atlas_net.Interlink.State.{Interlink}
use atlas_net.Interlink.Send.{
  Lookup, ask, insert, under_way, establish_new, establish_connection_to,
}

-- So many questions from `n` on have no answer.
abbrev pub Silent : Lookup → NetworkIdentity → ℕ → ℕ → Type 0
Silent lookup who n zero = Unit
Silent lookup who n (suc k) = (lookup who n ≡ none) × Silent lookup who (n + 1) k

module _ (lookup : Lookup) (who : NetworkIdentity) where
  -- The first answer, or none to all questions.
  Asked : ℕ → ℕ → Type 0
  Asked n left =
      ((i : ℕ) × (a : Address) × (i ≤ left)
        × Silent lookup who n i
        × (lookup who (n + i) ≡ some a)
        × (ask lookup who n left ≡ some a))
      ⊎ (Silent lookup who n (suc left) × (ask lookup who n left ≡ none))

  moved : (n i j : ℕ) → n + i ≡ j → lookup who (n + i) ≡ lookup who j
  moved n i j e = ap (lookup who) e

  ask_lem : (n left : ℕ) → Asked n left
  unfolding ask Asked
  ask_lem n zero = elim (Option-cases (lookup who n)) [
    | inl silent ↦ inr ((silent, tt), silent)
    | inr (a, answer) ↦ inl (0, a, omega arith, tt, moved n 0 n (omega arith) ∙ answer, answer)
  ]
  ask_lem n (suc left) = elim (Option-cases (lookup who n)) [
    | inr (a, answer) ↦
        inl (0, a, omega arith, tt, moved n 0 n (omega arith) ∙ answer, rw (ask, answer) refl)
    | inl silent ↦ elim (ask_lem (n + 1) left) [
      | inl (i, a, few, quiet, answer, asked) ↦ inl (
        suc i,
        a,
        omega arith,
        (silent, quiet),
        moved n (suc i) (n + 1 + i) (omega arith) ∙ answer,
        rw (ask, silent) asked,
      )
      | inr (quiet, asked) ↦ inr ((silent, quiet), rw (ask, silent) asked)
    ]
  ]

  module _ (same : NetworkIdentity → NetworkIdentity → Bool) (s : Interlink) where
    -- A process that is no game client connects to another process, to which no connection is under
    -- way: `EstablishConnectionTo` returns after at most six questions to the registry. It takes the
    -- first answer, puts a connection to that address into the table and returns true; and if none of
    -- the six questions is answered, it returns false and changes nothing.
    pub establish_connection_to_lem :
        (s.self_id.type == e_game_client) ≡ false
        → is_internal who ≡ true
        → under_way same who s ≡ false
        → ((i : ℕ) × (a : Address) × (i ≤ 5)
            × Silent lookup who 0 i
            × (lookup who i ≡ some a)
            × (establish_connection_to same lookup who s
                ≡ done (true, insert (set_new_state pre_connecting (make who a internal none)) s)))
          ⊎ (Silent lookup who 0 6 × (establish_connection_to same lookup who s ≡ done (false, s)))
    unfolding Asked establish_connection_to establish_new
    establish_connection_to_lem process inside new =
        let start = if-false _ _ process ∙ if-false _ _ new in
        elim (ask_lem 0 5) [
          | inl (i, a, few, quiet, answer, asked) ↦ inl (
            i,
            a,
            few,
            quiet,
            sym (moved 0 i i (omega arith)) ∙ answer,
            start ∙ ap done (if-true _ _ inside ∙ elim-some _ _ a asked),
          )
          | inr (quiet, asked) ↦
              inr (quiet, start ∙ ap done (if-true _ _ inside ∙ elim-none _ _ asked))
        ]
