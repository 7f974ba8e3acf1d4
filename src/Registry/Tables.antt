-- ===== src/Registry/Tables.antt =====
-- What the registries use of `InternalDB`, which passes its calls on to Redis: hash tables and sets under
-- keys, with what Redis documents of HGET, HSET, HDEL, HEXISTS, HGETALL, DEL, SADD, SREM and SISMEMBER. A
-- key holds one kind of value. Nothing here models code of the repository.
use atlas_net.Prelude.{◌≡◌, Bool, true, false, ◌&&◌, Option, some, none, List, ℕ, lex_same, is_some}
use atlas_net.Ledger.Uuids.{bytewise}
use atlas_net.Handoff.Maps.{Map, lookup, Distinct}

abbrev pub Text : Type 0
Text = List ℕ

pub record Tables : Type 1 where
  pub State : Type 0
  pub hget : Text → Text → State → Option Text
  pub hset : Text → Text → Text → State → State
  pub hdel : Text → Text → State → State
  pub hexists : Text → Text → State → Bool
  -- The fields with their values, in the order in which the answer's unordered_map hands them out.
  pub hget_all : Text → State → Map Text
  pub del_key : Text → State → State
  pub sadd : Text → Text → State → State
  pub srem : Text → Text → State → State
  pub sismember : Text → Text → State → Bool
  pub hget-hset : (t f v : Text) (s : State) → hget t f (hset t f v s) ≡ some v
  pub hget-hset_other :
      (t f u g v : Text) (s : State)
      → (lex_same u t && lex_same g f) ≡ false
      → hget t f (hset u g v s) ≡ hget t f s
  pub hget-hdel : (t f : Text) (s : State) → hget t f (hdel t f s) ≡ none
  pub hget-hdel_other :
      (t f u g : Text) (s : State)
      → (lex_same u t && lex_same g f) ≡ false
      → hget t f (hdel u g s) ≡ hget t f s
  pub hget-del_key : (t f : Text) (s : State) → hget t f (del_key t s) ≡ none
  pub hget-sadd :
      (t f k m : Text) (s : State) → lex_same k t ≡ false → hget t f (sadd k m s) ≡ hget t f s
  pub hget-srem :
      (t f k m : Text) (s : State) → lex_same k t ≡ false → hget t f (srem k m s) ≡ hget t f s
  pub hexists-hget : (t f : Text) (s : State) → hexists t f s ≡ is_some (hget t f s)
  pub lookup-hget_all : (t f : Text) (s : State) → lookup bytewise f (hget_all t s) ≡ hget t f s
  pub Distinct-hget_all : (t : Text) (s : State) → Distinct bytewise (hget_all t s)
  pub sismember-sadd : (k m : Text) (s : State) → sismember k m (sadd k m s) ≡ true
