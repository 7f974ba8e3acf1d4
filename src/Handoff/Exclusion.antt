-- ===== src/Handoff/Exclusion.antt =====
-- The lease of a connection has one owner at a time, while calls do not overlap.
use atlas_net.Prelude.{
  ◌≡◌, ◌<◌, refl, sym, ap, ◌∙◌, inl, inr, true, false, some, if◌then◌else◌, lex_less, lex_same,
  lex_less_total, lex_less_trans, lex_less_irrefl, Bool-cases,
}
use mathlib.Core.Path.{subst}
use atlas_net.Network.Identity.{NetworkIdentity}
use atlas_net.Network.Names.{to_string}
use atlas_net.Handoff.Maps.{true-ne-false}
use atlas_net.Handoff.Database.{Database, Text}
use atlas_net.Handoff.Leases.{
  LeaseCoordinator, pair_key, build_lease_key, taken, try_acquire_or_refresh_lease,
}

-- Both ends of a connection use the same key.
pair_key_comm : (prefix a b : Text) → pair_key prefix a b ≡ pair_key prefix b a
unfolding pair_key
pair_key_comm prefix a b = elim (Bool-cases (lex_less a b)) [
  | inl below ↦ elim (Bool-cases (lex_less b a)) [
    | inl above ↦
        absurd (true-ne-false (sym (lex_less_trans a b a below above) ∙ lex_less_irrefl a))
    | inr not_above ↦ rw (below, not_above) refl
  ]
  | inr not_below ↦ elim (Bool-cases (lex_less b a)) [
    | inl above ↦ rw (not_below, above) refl
    | inr not_above ↦
        subst (λ y. pair_key prefix a y ≡ pair_key prefix y a)
          (lex_less_total a b not_below not_above) refl
  ]
]

module _ (text : Text → Text) (db : Database) where
  taken_by :
      (key owner current : Text) (d : db.State)
      → db.get key d ≡ some current
      → taken text db key owner d ≡ (if lex_same current owner then false else true)
  unfolding taken
  taken_by key owner current d h = rw (taken, h) refl

  attempt_taken :
      (e : LeaseCoordinator) (peer : NetworkIdentity) (d : db.State)
      → e.options.lease_enabled ≡ true
      → taken text db (build_lease_key text e peer) (to_string text e.self_identity) d ≡ true
      → try_acquire_or_refresh_lease text db e peer d ≡ (false, d)
  unfolding try_acquire_or_refresh_lease taken build_lease_key to_string
  attempt_taken e peer d on held = rw (on, held) refl

  attempt_free :
      (e : LeaseCoordinator) (peer : NetworkIdentity) (d : db.State)
      → e.options.lease_enabled ≡ true
      → taken text db (build_lease_key text e peer) (to_string text e.self_identity) d ≡ false
      → try_acquire_or_refresh_lease text db e peer d ≡ (
        true,
        db.expire
            (build_lease_key text e peer)
            e.options.lease_ttl
            (db.set (build_lease_key text e peer) (to_string text e.self_identity) d),
      )
  unfolding try_acquire_or_refresh_lease taken build_lease_key to_string
  attempt_free e peer d on free = rw (on, free) refl

  -- A lease that was acquired is in the database.
  acquired :
      (a : LeaseCoordinator) (peer : NetworkIdentity) (d : db.State)
      → a.options.lease_enabled ≡ true
      → 0 < a.options.lease_ttl
      → (try_acquire_or_refresh_lease text db a peer d).0 ≡ true
      → db.get (build_lease_key text a peer) (try_acquire_or_refresh_lease text db a peer d).1
        ≡ some (to_string text a.self_identity)
  acquired a peer d on lasts won =
      let key = build_lease_key text a peer in
      let owner = to_string text a.self_identity in
      elim (Bool-cases (taken text db key owner d)) [
        | inl held ↦
            absurd (true-ne-false (sym won ∙ ap (λ r. r.0) (attempt_taken a peer d on held)))
        | inr free ↦
            ap (λ r. db.get key r.1) (attempt_free a peer d on free)
            ∙ db.get-expire key key a.options.lease_ttl (db.set key owner d) lasts
            ∙ db.get-set key owner d
      ]

  -- An attempt at a lease that the database has under a name.
  attempt :
      (e : LeaseCoordinator) (peer : NetworkIdentity) (current : Text) (d : db.State)
      → e.options.lease_enabled ≡ true
      → db.get (build_lease_key text e peer) d ≡ some current
      → lex_same current (to_string text e.self_identity) ≡ false
      → try_acquire_or_refresh_lease text db e peer d ≡ (false, d)
  attempt e peer current d on there other = attempt_taken e peer d on (
      taken_by (build_lease_key text e peer) (to_string text e.self_identity) current d there
      ∙ ap (λ b. if b then false else true) other)

  -- Leases are enabled at the shards `a` and `b`, which have different names and the same key prefix, and
  -- the time to live is positive. When `a` has acquired the lease of its connection to `b`, an attempt
  -- by `b` at the lease of its connection to `a` that follows fails and leaves the database as it is.
  pub try_acquire_or_refresh_lease_excludes :
      (a b : LeaseCoordinator) (d : db.State)
      → a.options.lease_enabled ≡ true
      → b.options.lease_enabled ≡ true
      → 0 < a.options.lease_ttl
      → a.options.lease_key_prefix ≡ b.options.lease_key_prefix
      → lex_same (to_string text a.self_identity) (to_string text b.self_identity) ≡ false
      → (try_acquire_or_refresh_lease text db a b.self_identity d).0 ≡ true
      → try_acquire_or_refresh_lease text db b a.self_identity
          (try_acquire_or_refresh_lease text db a b.self_identity d).1
        ≡ (false, (try_acquire_or_refresh_lease text db a b.self_identity d).1)
  unfolding build_lease_key
  try_acquire_or_refresh_lease_excludes a b d on_a on_b lasts prefixes other won =
      let name_a = to_string text a.self_identity in
      let name_b = to_string text b.self_identity in
      let keys =
        ap (λ p. pair_key p name_b name_a) (sym prefixes)
        ∙ pair_key_comm a.options.lease_key_prefix name_b name_a in
      let after = (try_acquire_or_refresh_lease text db a b.self_identity d).1 in
      attempt b a.self_identity name_a after on_b
        (ap (λ k. db.get k after) keys ∙ acquired a b.self_identity d on_a lasts won) other
