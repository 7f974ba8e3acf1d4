-- ===== src/Registry/Rounds.antt =====
-- What a round of the health check leaves in the table of pings.
use atlas_net.Prelude.{
  ◌≡◌, refl, ap, sym, ◌∙◌, inl, inr, Bool, true, false, List, [], ◌∷◌, Option, none, if◌then◌else◌,
  All, Bool-cases, Option-cases, ltb, length, lex_same, lex_same_refl, ◌||◌,
}
use atlas_net.Bytes.Result.{ok}
use atlas_net.Bytes.Reader
use atlas_net.Bytes.Reader.{ByteReader}
use atlas_net.Network.Identity
use atlas_net.Network.Identity.{NetworkIdentity}
use atlas_net.Network.Names.{to_string}
use atlas_net.Ledger.Uuids.{bytewise}
use atlas_net.Handoff.Maps.{listed, same-eq}
use atlas_net.Interlink.Run.{done}
use atlas_net.Registry.Tables.{Text, Tables}
use atlas_net.Registry.Health.{
  Doubles, health_ping_table, claimed_hash_table, pending_hash_table, first_four,
  requeue_claimed_bound, remove_ping, on_health_check_fail, fail_each, check_round,
}
use atlas_net.Registry.Expiry.{Readable, expires, get_expired_pings_lem}

-- What is removed now or later.
removed_or :
    (now later : Bool) (after before : Option Text)
    → after ≡ (if now then none else before)
    → (if later then none else after) ≡ (if now || later then none else before)
removed_or true true after before h = refl
removed_or true false after before h = h
removed_or false true after before h = refl
removed_or false false after before h = h

All-listed {ℓ} :
    {P : Text → Type ℓ} (ks : List Text)
    → ((k : Text) → listed bytewise k ks ≡ true → P k)
    → All P ks
All-listed [] h = tt
All-listed (x ∷ xs) h = (
  h x (ap (λ b. b || listed bytewise x xs) (lex_same_refl x)),
  All-listed xs (λ k is. h k (ap (λ b. lex_same x k || b) is ∙ or_true (lex_same x k))),
)
  where
    or_true : (b : Bool) → (b || true) ≡ true
    or_true true = refl
    or_true false = refl

module _ (db : Tables) where
  -- The pings are in another table.
  hget-requeue_claimed_bound :
      (claim_key k : Text) (s : db.State)
      → db.hget health_ping_table k (requeue_claimed_bound db claim_key s).1
        ≡ db.hget health_ping_table k s
  unfolding requeue_claimed_bound
  hget-requeue_claimed_bound claim_key k s =
      elim (Option-cases (db.hget claimed_hash_table claim_key s)) [
        | inl gone ↦ rw (requeue_claimed_bound, gone) refl
        | inr (v, there) ↦ elim (Bool-cases (ltb (length v) 4)) [
          | inl short ↦ rw (requeue_claimed_bound, there, short) refl
          | inr enough ↦
              rw (requeue_claimed_bound, there, enough)
                (db.hget-hdel_other health_ping_table k claimed_hash_table claim_key
                    (db.hset pending_hash_table (first_four v) v s) refl
                  ∙ db.hget-hset_other health_ping_table k pending_hash_table (first_four v) v s
                      refl)
        ]
      ]

  -- The key is read as an identity.
  abbrev pub Names : Text → Type 0
  Names k = (r : NetworkIdentity × ByteReader) × (Identity.deserialize (Reader.new k) ≡ ok r)

  module _ (text : Text → Text) where
    hget-on_health_check_fail :
        (who : NetworkIdentity) (key k : Text) (s : db.State)
        → db.hget health_ping_table k (on_health_check_fail db text who key s)
          ≡ (if bytewise.same key k then none else db.hget health_ping_table k s)
    unfolding on_health_check_fail remove_ping
    hget-on_health_check_fail who key k s =
        let t = (requeue_claimed_bound db (to_string text who) s).1 in
        elim (Bool-cases (lex_same key k)) [
          | inl is ↦ rw (is, same-eq bytewise key k is) (db.hget-hdel health_ping_table k t)
          | inr apart ↦ rw apart (
              db.hget-hdel_other health_ping_table k health_ping_table key t apart
              ∙ hget-requeue_claimed_bound (to_string text who) k s)
        ]

    fail_each_lem :
        (keys : List Text) (s : db.State)
        → All Names keys
        → (t : db.State) × (fail_each db text keys s ≡ done t)
          × ((k : Text)
              → db.hget health_ping_table k t
                ≡ (if listed bytewise k keys then none else db.hget health_ping_table k s))
    unfolding fail_each
    fail_each_lem [] s h = (s, refl, λ k. refl)
    fail_each_lem (x ∷ xs) s ((r, read), h) =
        let (t, run, left) = fail_each_lem xs (on_health_check_fail db text r.0 x s) h in
        (
          t,
          rw (fail_each, read) run,
          λ k.
              left k
              ∙ removed_or (lex_same x k) (listed bytewise k xs)
                  (db.hget health_ping_table k (on_health_check_fail db text r.0 x s))
                  (db.hget health_ping_table k s) (hget-on_health_check_fail r.0 x k s),
        )

    -- Every ping in the table is a number, and every key whose ping has expired is read as an identity.
    -- Then a round of the health check returns, without throwing, and takes exactly the expired pings out
    -- of the table; the others stand as before.
    pub check_round_lem :
        (doubles : Doubles) (now : doubles.Double) (s : db.State)
        → Readable doubles now (db.hget_all health_ping_table s)
        → ((k : Text) → expires doubles now (db.hget health_ping_table k s) ≡ true → Names k)
        → (t : db.State) × (check_round db doubles text now s ≡ done t)
          × ((k : Text)
              → db.hget health_ping_table k t ≡ (
                  if expires doubles now (db.hget health_ping_table k s)
                  then none
                  else db.hget health_ping_table k s))
    unfolding check_round
    check_round_lem doubles now s numbers names =
        let (keys, found, live, which) = get_expired_pings_lem db doubles now s numbers in
        let named = All-listed keys (λ k is. names k (sym (which k) ∙ is)) in
        let (t, run, left) = fail_each_lem keys s named in
        (
          t,
          rw (check_round, found) run,
          λ k. left k ∙ ap (λ b. if b then none else db.hget health_ping_table k s) (which k),
        )
