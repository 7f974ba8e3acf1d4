-- ===== src/Registry/Kept.antt =====
-- Tables that are kept in memory meet the interface to the database.
use atlas_net.Prelude.{is_some}
use atlas_net.Prelude.{
  ◌≡◌, refl, ap, sym, ◌∙◌, inl, inr, Bool, true, false, ◌&&◌, Option, lex_same, lex_same_refl,
  if◌then◌else◌, Bool-cases, [],
}
use atlas_net.Ledger.Uuids.{bytewise}
use atlas_net.Handoff.Maps.{
  Map, lookup, assign, erase, Distinct, Distinct-assign, lookup-erase_self, lookup-erase_other,
}
use atlas_net.Handoff.Keys.{Distinct-erase, lookup-assign_self, lookup-assign_other}
use atlas_net.Registry.Tables.{Text, Tables}

-- A hash table has no field twice.
abbrev pub Hash : Type 0
Hash = (m : Map Text) × Distinct bytewise m

abbrev pub State : Type 0
State = (Text → Hash) × (Text → Text → Bool)

abbrev pub empty_hash : Hash
empty_hash = ([], tt)

abbrev pub blank : State
blank = (λ t. empty_hash, λ k m. false)

abbrev pub at : Text → (Hash → Hash) → State → State
at t g s = (λ u. if lex_same t u then g (s.0 u) else s.0 u, s.1)

abbrev pub put : Text → Text → Hash → Hash
put f v h = (assign bytewise f v h.0, Distinct-assign bytewise f v h.0 h.1)

abbrev pub take_out : Text → Hash → Hash
take_out f h = (erase bytewise f h.0, Distinct-erase bytewise f h.0 h.1)

abbrev pub mark : Text → Text → Bool → State → State
mark k m b s = (s.0, λ j n. if lex_same k j && lex_same m n then b else s.1 j n)

abbrev pub field : Text → Hash → Option Text
field f h = lookup bytewise f h.0

pub here :
    (t f : Text) (g : Hash → Hash) (s : State) → field f ((at t g s).0 t) ≡ field f (g (s.0 t))
here t f g s = rw (lex_same_refl t) refl

-- A change of a field is not seen elsewhere.
pub elsewhere :
    (t f u k : Text) (g : Hash → Hash) (s : State)
    → (lex_same u t && lex_same k f) ≡ false
    → (lex_same k f ≡ false → field f (g (s.0 t)) ≡ field f (s.0 t))
    → field f ((at u g s).0 t) ≡ field f (s.0 t)
elsewhere t f u k g s h same = elim (Bool-cases (lex_same u t)) [
  | inr apart ↦ rw apart refl
  | inl is ↦ rw is (same (sym (ap (λ b. b && lex_same k f) is) ∙ h))
]

abbrev pub kept : Tables
kept = record {
  State = State;
  hget = λ t f s. field f (s.0 t);
  hset = λ t f v s. at t (put f v) s;
  hdel = λ t f s. at t (take_out f) s;
  hexists = λ t f s. is_some (field f (s.0 t));
  hget_all = λ t s. (s.0 t).0;
  del_key = λ t s. at t (λ h. empty_hash) s;
  sadd = λ k m s. mark k m true s;
  srem = λ k m s. mark k m false s;
  sismember = λ k m s. s.1 k m;
  hget-hset = λ t f v s. here t f (put f v) s ∙ lookup-assign_self bytewise f v (s.0 t).0;
  hget-hset_other = λ t f u g v s h.
      elsewhere t f u g (put g v) s h (lookup-assign_other bytewise g f v (s.0 t).0);
  hget-hdel = λ t f s. here t f (take_out f) s ∙ lookup-erase_self bytewise f (s.0 t).0;
  hget-hdel_other =
      λ t f u g s h. elsewhere t f u g (take_out g) s h (lookup-erase_other bytewise g f (s.0 t).0);
  hget-del_key = λ t f s. here t f (λ h. empty_hash) s;
  hget-sadd = λ t f k m s h. refl;
  hget-srem = λ t f k m s h. refl;
  hexists-hget = λ t f s. refl;
  lookup-hget_all = λ t f s. refl;
  Distinct-hget_all = λ t s. (s.0 t).1;
  sismember-sadd = λ k m s. rw (lex_same_refl k, lex_same_refl m) refl;
}
