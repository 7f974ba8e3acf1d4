-- ===== src/Packets/Registered.antt =====
-- The registry that the static initialisers fill, in whatever order they run.
use atlas_net.Prelude.{
  ℕ, ◌-◌, ◌^◌, ◌<◌, ◌≡◌, ◌==◌, ◌⊎◌, inl, inr, refl, ap, sym, ◌∙◌, true, List, [], ◌∷◌, ◌++◌, length,
  All, All-append, arith, some, none, Bool-cases, Option-cases, ==_iff,
}
use atlas_net.Bytes.Result.{ok}
use atlas_net.Bytes.Writer
use atlas_net.Packets.Packet.{
  Kind, entity_transfer, client_transfer, local_entity_list, client_id_assign, generic_entity,
  Packet, kind_of, type_id, serialize, validate, validate_data, Registry, find, register, create,
  create_from_bytes,
}
use atlas_net.Packets.Delivery.{IsBody, create_from_bytes-serialize}

-- ATLASNET_REGISTER_PACKET for each of some classes, one after the other.
pub register_all : List Kind → Registry → Registry
register_all [] reg = reg
register_all (k ∷ ks) reg = register_all ks (register reg (type_id k) k).0

abbrev pub Occurs : Kind → List Kind → Type 0
Occurs k [] = ⊥
Occurs k (x ∷ xs) = (k ≡ x) ⊎ Occurs k xs

-- The five hashes.
id_table :
    (type_id entity_transfer ≡ 740491661)
    × (type_id client_transfer ≡ 2161364161)
    × (type_id local_entity_list ≡ 666127196)
    × (type_id client_id_assign ≡ 4175458834)
    × (type_id generic_entity ≡ 3052270901)
unfolding type_id
id_table = (refl, refl, refl, refl, refl)

-- Of the five registered classes no two have names with the same 32-bit hash, so none share a type on
-- the wire.
pub type_id-injective : (j k : Kind) → type_id j ≡ type_id k → j ≡ k
type_id-injective entity_transfer entity_transfer e = refl
type_id-injective client_transfer client_transfer e = refl
type_id-injective local_entity_list local_entity_list e = refl
type_id-injective client_id_assign client_id_assign e = refl
type_id-injective generic_entity generic_entity e = refl
type_id-injective _ _ e = absurd (omega (arith, id_table, e))

-- The type that means "none" belongs to no class.
type_id-valid : (k : Kind) → type_id k < 2 ^ 32 - 1
type_id-valid entity_transfer = omega (arith, id_table)
type_id-valid client_transfer = omega (arith, id_table)
type_id-valid local_entity_list = omega (arith, id_table)
type_id-valid client_id_assign = omega (arith, id_table)
type_id-valid generic_entity = omega (arith, id_table)

-- Every entry stands under the type of its class.
abbrev Keyed : Registry → Type 0
Keyed reg = All (λ e. e.0 ≡ type_id e.1) reg

find-Keyed :
    (k : Kind) (reg : Registry)
    → Keyed reg
    → (find (type_id k) reg ≡ none) ⊎ (find (type_id k) reg ≡ some k)
unfolding find
find-Keyed k [] h = inl refl
find-Keyed k ((t, j) ∷ reg) h = elim (Bool-cases (t == type_id k)) [
  | inl same ↦
      inr (rw same (ap some (type_id-injective j k (sym h.0 ∙ (==_iff t (type_id k)).0 same))))
  | inr other ↦ rw other (find-Keyed k reg h.1)
]

find-append :
    (t : ℕ) (reg more : Registry)
    → find t (reg ++ more) ≡ elim (find t reg) [ none ↦ find t more | some k ↦ some k ]
unfolding find
find-append t [] more = refl
find-append t ((u, j) ∷ reg) more = elim (Bool-cases (u == t)) [
  | inl same ↦ rw same
  | inr other ↦ rw other (find-append t reg more)
]

register-Keyed : (reg : Registry) (k : Kind) → Keyed reg → Keyed (register reg (type_id k) k).0
unfolding register
register-Keyed reg k h = elim (Option-cases (find (type_id k) reg)) [
  | inl e ↦ rw (e, register) (All-append _ reg ((type_id k, k) ∷ []) h (refl, tt))
  | inr (j, e) ↦ rw (e, register) h
]

-- What is registered stays, and what is registered now is there.
register_keeps :
    (reg : Registry) (t : ℕ) (k j : Kind) (u : ℕ)
    → find u reg ≡ some j
    → find u (register reg t k).0 ≡ some j
unfolding register
register_keeps reg t k j u found = elim (Option-cases (find t reg)) [
  | inl e ↦ rw (e, register) (find-append u reg ((t, k) ∷ []) ∙ rw found)
  | inr (i, e) ↦ rw (e, register) found
]

find_alone : (t : ℕ) (k : Kind) → find t ((t, k) ∷ []) ≡ some k
unfolding find
find_alone t k = rw ((==_iff t t).1 refl)

find-register :
    (reg : Registry) (k : Kind)
    → Keyed reg
    → find (type_id k) (register reg (type_id k) k).0 ≡ some k
unfolding register
find-register reg k h = elim (find-Keyed k reg h) [
  | inl e ↦
      rw (e, register)
        (find-append (type_id k) reg ((type_id k, k) ∷ []) ∙ rw e (find_alone (type_id k) k))
  | inr e ↦ rw (e, register) e
]

register_all_keeps :
    (ks : List Kind) (reg : Registry) (u : ℕ) (j : Kind)
    → find u reg ≡ some j
    → find u (register_all ks reg) ≡ some j
unfolding register_all
register_all_keeps [] reg u j found = found
register_all_keeps (k ∷ ks) reg u j found =
    register_all_keeps ks _ u j (register_keeps reg (type_id k) k j u found)

find-register_all :
    (ks : List Kind) (reg : Registry) (k : Kind)
    → Keyed reg
    → Occurs k ks
    → find (type_id k) (register_all ks reg) ≡ some k
unfolding register_all
find-register_all [] reg k h o = absurd o
find-register_all (x ∷ ks) reg k h (inl e) =
    register_all_keeps ks _ (type_id k) k (rw e (find-register reg x h))
find-register_all (x ∷ ks) reg k h (inr o) = find-register_all ks _ k (register-Keyed reg x h) o

-- When the classes `ks` have registered in this order on an empty registry, `Create` on the type of a
-- class among them makes a packet of that class.
pub create-register_all :
    (ks : List Kind) (k : Kind) → Occurs k ks → create (register_all ks []) (type_id k) ≡ some k
unfolding create
create-register_all ks k o = find-register_all ks [] k tt o

module _ (p : Packet) (own : p.packet_type ≡ type_id (kind_of p.body)) where
  pub own_type_lt : p.packet_type < 2 ^ 32
  own_type_lt = omega (arith, own, type_id-valid (kind_of p.body))

  pub validate_own : validate_data p.body ≡ true → validate p ≡ true
  unfolding validate
  validate_own valid = ground (arith, valid, own, type_id-valid (kind_of p.body))

  pub registered_delivery :
      (ks : List Kind)
      → Occurs (kind_of p.body) ks
      → IsBody p.body
      → validate_data p.body ≡ true
      → length (serialize p Writer.new).buf < 2 ^ 64
      → create_from_bytes (register_all ks []) (serialize p Writer.new).buf ≡ ok (some p)
  registered_delivery ks o h valid small =
      create_from_bytes-serialize p own_type_lt h small (register_all ks [])
        (rw own (create-register_all ks (kind_of p.body) o)) (validate_own valid)
