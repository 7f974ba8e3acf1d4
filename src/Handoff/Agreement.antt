-- ===== src/Handoff/Agreement.antt =====
-- Shards that elect an owner one after the other agree on it.
use atlas_net.Prelude.{
  ℕ, ◌≡◌, refl, sym, ap, ◌∙◌, ◌⊎◌, inl, inr, Bool, true, false, List, Option, some, none,
  Bool-cases, Option-cases, lex_same, lex_same_eq,
}
use mathlib.Core.Path.{subst}
use atlas_net.Network.Identity.{NetworkIdentity}
use atlas_net.Network.Names.{to_string, is_empty}
use atlas_net.Handoff.Maps.{true-ne-false}
use atlas_net.Handoff.Marks.{some-ne-none}
use atlas_net.Handoff.Database.{Database, Text}
use atlas_net.Handoff.Election.{
  OwnershipElection, is_recent, select_bootstrap_owner, still_valid, bootstrap, selected, confirmed,
  evaluate,
}
use atlas_net.Handoff.Candidates.{bootstrap-still_valid, still_valid-filled}

module _ (text : Text → Text) (db : Database) (key : Text) (servers : List NetworkIdentity) where
  -- No owner, or one that is in the database, and in the registry.
  abbrev Elected : Option Text × db.State → Type 0
  Elected r =
      (r.0 ≡ none)
      ⊎ ((b : Text) × (r.0 ≡ some b)
          × (still_valid text b servers ≡ true)
          × (db.get key r.1 ≡ some b))

  bootstrap-Elected : (d : db.State) → Elected (bootstrap text db key servers d)
  unfolding bootstrap
  bootstrap-Elected d = elim (Option-cases (select_bootstrap_owner text servers)) [
    | inl gone ↦ subst Elected {x = (none, d)} (sym (rw (bootstrap, gone) refl)) (inl refl)
    | inr (b, is) ↦
        subst Elected {x = (some b, db.set key b d)} (sym (rw (bootstrap, is) refl))
          (inr (b, refl, bootstrap-still_valid text servers b is, db.get-set key b d))
  ]

  -- No owner, or one that is in the database.
  abbrev Stored : Option Text × db.State → Type 0
  Stored r = (r.0 ≡ none) ⊎ ((b : Text) × (r.0 ≡ some b) × (db.get key r.1 ≡ some b))

  Elected-Stored : (r : Option Text × db.State) → Elected r → Stored r
  Elected-Stored r (inl gone) = inl gone
  Elected-Stored r (inr (b, is, valid, there)) = inr (b, is, there)

  selected-Stored : (d : db.State) → Stored (selected text db key servers d)
  unfolding selected
  selected-Stored d = elim (Option-cases (db.get key d)) [
    | inl gone ↦
        subst Stored {x = bootstrap text db key servers d} (sym (rw (selected, gone) refl))
          (fresh d)
    | inr (b, is) ↦ elim (Bool-cases (is_empty b)) [
      | inl it ↦
          subst Stored {x = bootstrap text db key servers d} (sym (rw (selected, is, it) refl))
            (fresh d)
      | inr filled ↦
          subst Stored {x = (some b, d)} (sym (rw (selected, is, filled) refl)) (inr (b, refl, is))
    ]
  ]
    where
      fresh : (d : db.State) → Stored (bootstrap text db key servers d)
      fresh d = Elected-Stored (bootstrap text db key servers d) (bootstrap-Elected d)

  confirmed-Elected :
      (o : Option Text) (d : db.State)
      → Stored (o, d)
      → Elected (confirmed text db key servers (o, d))
  unfolding confirmed
  confirmed-Elected none d h = inl refl
  confirmed-Elected (some b) d (inl gone) = absurd (some-ne-none gone)
  confirmed-Elected (some b) d (inr (c, is, there)) =
      elim (Bool-cases (still_valid text b servers)) [
        | inl valid ↦
            subst Elected {x = (some b, d)} (sym (rw (confirmed, valid) refl))
              (inr (b, refl, valid, there ∙ sym is))
        | inr not_valid ↦
            subst Elected {x = bootstrap text db key servers d}
              (sym (rw (confirmed, not_valid) refl)) (bootstrap-Elected d)
      ]

  -- What one evaluation comes to that does not use its last result.
  abbrev outcome : db.State → Option Text × db.State
  outcome d = confirmed text db key servers (selected text db key servers d)

  outcome-Elected : (d : db.State) → Elected (outcome d)
  outcome-Elected d =
      confirmed-Elected (selected text db key servers d).0 (selected text db key servers d).1
        (selected-Stored d)

  -- An owner that is in the database and in the registry is left.
  outcome_stays :
      (d : db.State) (b : Text)
      → db.get key d ≡ some b
      → still_valid text b servers ≡ true
      → outcome d ≡ (some b, d)
  unfolding selected confirmed
  outcome_stays d b there valid =
      ap (confirmed text db key servers) {x = selected text db key servers d} {y = (some b, d)}
        (rw (selected, there, still_valid-filled text b servers valid) refl)
      ∙ rw (confirmed, valid) refl

module _ (text : Text → Text) (db : Database) where
  -- An evaluation that does not use the last result.
  evaluate_anew :
      (servers : List NetworkIdentity) (now : ℕ) (e : OwnershipElection) (d : db.State)
      → is_recent now e ≡ false
      → let r = outcome text db e.options.owner_key servers d in
        ((evaluate text db servers now e d).0.is_owner
          ≡ elim r.0 [ none ↦ false | some b ↦ lex_same b (to_string text e.self_identity) ])
        × ((evaluate text db servers now e d).1 ≡ r.1)
  unfolding evaluate
  evaluate_anew servers now e d h = (rw (evaluate, h) refl, rw (evaluate, h) refl)

  -- An owner that is in the database and in the registry decides.
  evaluate_stored :
      (servers : List NetworkIdentity) (now : ℕ) (e : OwnershipElection) (d : db.State) (n : Text)
      → is_recent now e ≡ false
      → db.get e.options.owner_key d ≡ some n
      → still_valid text n servers ≡ true
      → ((evaluate text db servers now e d).0.is_owner
          ≡ lex_same n (to_string text e.self_identity))
        × ((evaluate text db servers now e d).1 ≡ d)
  evaluate_stored servers now e d n h there valid =
      let (owner, after) = evaluate_anew servers now e d h in
      let stays = outcome_stays text db e.options.owner_key servers d n there valid in
      (
        owner
            ∙ ap
                (λ r. elim r.0 [
                  | none ↦ false
                  | some b ↦ lex_same b (to_string text e.self_identity)
                ])
                stays,
        after ∙ ap (λ r. r.1) stays,
      )

  -- A shard `a` evaluates the election and becomes the owner; then a shard `b`, with the same database
  -- key and a registry that has the same shards, evaluates it. If neither used an earlier result, then
  -- the database is left as it was, and `b` is owner exactly if it has the same name as `a`.
  pub evaluate_agrees :
      (servers_a servers_b : List NetworkIdentity) (now later : ℕ) (a b : OwnershipElection)
      (d : db.State)
      → is_recent now a ≡ false
      → is_recent later b ≡ false
      → a.options.owner_key ≡ b.options.owner_key
      → ((name : Text) → still_valid text name servers_a ≡ still_valid text name servers_b)
      → (evaluate text db servers_a now a d).0.is_owner ≡ true
      → let after = (evaluate text db servers_a now a d).1 in
        ((evaluate text db servers_b later b after).0.is_owner
          ≡ lex_same (to_string text a.self_identity) (to_string text b.self_identity))
        × ((evaluate text db servers_b later b after).1 ≡ after)
  evaluate_agrees servers_a servers_b now later a b d ha hb keys listed won =
      let key = a.options.owner_key in
      let (owner_a, after_a) = evaluate_anew servers_a now a d ha in
      let won' = sym owner_a ∙ won in
      elim (outcome-Elected text db key servers_a d) [
        | inl gone ↦ absurd (true-ne-false (sym won' ∙ ap decided gone))
        | inr (n, is, valid, there) ↦
            let after = (evaluate text db servers_a now a d).1 in
            let (owner_b, after_b) =
              evaluate_stored servers_b later b after n hb
                (ap (λ k. db.get k after) (sym keys) ∙ ap (db.get key) after_a ∙ there)
                (sym (listed n) ∙ valid) in
            let named =
              lex_same_eq n (to_string text a.self_identity) (sym (ap decided is) ∙ won') in
            (owner_b ∙ ap (λ y. lex_same y (to_string text b.self_identity)) named, after_b)
      ]
    where
      decided : Option Text → Bool
      decided o = elim o [ none ↦ false | some n ↦ lex_same n (to_string text a.self_identity) ]
