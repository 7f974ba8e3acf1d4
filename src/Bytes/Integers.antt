-- ===== src/Bytes/Integers.antt =====
-- Fixed-width integers: `push_be` of ByteWriter.hpp against `read_be` of ByteReader.hpp.
use mathlib.Core.Path.{subst}
use native.Mathlib.Numerals.{towards_suc}
use native.Mathlib.Nat.{one-le-pow, mod-eq_of_lt, div-add-mod, div-div-eq-div-mul, mul_comm}
use atlas_net.Prelude.{
  ℕ, zero, suc, ◌+◌, ◌*◌, ◌/◌, ◌%◌, ◌^◌, ◌≤◌, ◌<◌, ◌≡◌, refl, sym, ap, ◌∙◌, List, [], ◌∷◌, ◌++◌,
  length, get_elem?, get_elem?-drop, append_assoc, append-nil, arith, bit_or, ltb, leb, ltb-false,
  some, false,
}
use atlas_net.Prelude.Bits.{bit_or_below}
use atlas_net.Bytes.Result.{ok}
use atlas_net.Bytes.Writer
use atlas_net.Bytes.Writer.{push_be}
use atlas_net.Bytes.Reader
use atlas_net.Bytes.Reader.{ByteReader, Read, next_byte, be_loop, read_be, advance}
use atlas_net.Bytes.Codec.{
  IsValid, Writes, Reads, RoundTrips, unread, skip, unread_length, Reads-bind,
}
use atlas_net.Bytes.Codec.{Reads-return, RoundTrips-map}

-- The `i` low bytes of `v`, the highest first.
abbrev pub be_bytes : ℕ → ℕ → List ℕ
be_bytes zero v = []
be_bytes (suc i) v = v / 2 ^ (8 * i) % 2 ^ 8 ∷ be_bytes i v

pub length-be_bytes : (i v : ℕ) → length (be_bytes i v) ≡ i
length-be_bytes zero v = refl
length-be_bytes (suc i) v = ap suc (length-be_bytes i v)

pub Writes-u8 : (v : ℕ) → Writes (Writer.u8 v) (v % 2 ^ 8 ∷ [])
unfolding Writer.u8
Writes-u8 v w = refl

pub Writes-push_be : (i v : ℕ) → Writes (push_be i v) (be_bytes i v)
unfolding push_be Writer.u8
Writes-push_be zero v w = ap (λ b. record w { buf = b }) (sym (append-nil w.buf))
Writes-push_be (suc i) v w =
    let byte = v / 2 ^ (8 * i) % 2 ^ 8 ∷ [] in
    Writes-push_be i v (record w { buf = w.buf ++ byte })
    ∙ ap (λ b. record w { buf = b }) (append_assoc w.buf byte (be_bytes i v))

-- In range, the position does not wrap.
pub advance-skip :
    (r : ByteReader) (bs rest : List ℕ)
    → IsValid r
    → unread r ≡ bs ++ rest
    → advance (length bs) r ≡ skip (length bs) r
advance-skip r bs rest v u =
    ap (λ p. record r { position = p })
      (mod-eq_of_lt (omega (arith, unread_length r bs rest v u, v.addressable)))

pub Reads-next_byte : (b : ℕ) → Reads next_byte (b ∷ []) b
unfolding next_byte
Reads-next_byte b r rest v u =
    let found : get_elem? r.source r.position ≡ some b =
      sym (get_elem?-drop r.position r.source) ∙ ap (λ l. get_elem? l 0) u in
    rw (found, next_byte) (ap (λ s. ok (b, s)) (advance-skip r (b ∷ []) rest v u))

split_byte : (v p : ℕ) → 0 < p → v % (256 * p) ≡ v / p % 256 * p + v % p
split_byte v p h = omega (
  arith,
  div-add-mod v p,
  div-add-mod v (256 * p),
  ap (λ (t : ℕ). p * t) (div-add-mod (v / p) 256),
  ap (λ (t : ℕ). p * t) (div-div-eq-div-mul v p 256 ∙ ap (λ (t : ℕ). v / t) (mul_comm p 256)),
)

shift_eight : (s : ℕ) → 2 ^ (s + 8) ≡ 256 * 2 ^ s
shift_eight s = simp towards_suc (omega arith)

shift_byte : (j : ℕ) → 2 ^ (8 * suc j) ≡ 256 * 2 ^ (8 * j)
shift_byte j = ap (λ t. 2 ^ t) {x = 8 * suc j} {y = 8 * j + 8} (omega arith) ∙ shift_eight (8 * j)

le_scaled : (a b p : ℕ) → a ≤ b → a * p ≤ b * p
le_scaled a b p h = grind arith

-- One round of the loop, as arithmetic: nothing is shifted out, and the low byte is free.
be_round :
    (j w acc b : ℕ)
    → b < 2 ^ 8
    → (acc + 1) * 2 ^ (8 * suc j) ≤ 2 ^ w
    → (bit_or (acc * 2 ^ 8 % 2 ^ w) b ≡ acc * 2 ^ 8 + b)
      × ((acc * 2 ^ 8 + b + 1) * 2 ^ (8 * j) ≤ 2 ^ w)
be_round j w acc b small fits = (
  rw (mod-eq_of_lt kept) (bit_or_below 8 acc b small),
  omega (
    arith,
    ap (λ (t : ℕ). (acc + 1) * t) (shift_byte j),
    le_scaled (acc * 2 ^ 8 + b + 1) (acc * 2 ^ 8 + 256) (2 ^ (8 * j)) (omega arith),
  ),
)
  where
    kept : acc * 2 ^ 8 < 2 ^ w
    kept = grind (arith, shift_byte j, fits, one-le-pow (8 * j) 2 (omega arith))

be_loop-Reads :
    (j w acc v : ℕ)
    → (acc + 1) * 2 ^ (8 * j) ≤ 2 ^ w
    → Reads (be_loop j w acc) (be_bytes j v) (acc * 2 ^ (8 * j) + v % 2 ^ (8 * j))
unfolding be_loop
be_loop-Reads zero w acc v h = subst (Reads (Reader.return acc) []) (omega arith) (Reads-return acc)
be_loop-Reads (suc j) w acc v h =
    Reads-bind next_byte (λ b. be_loop j w (bit_or (acc * 2 ^ 8 % 2 ^ w) b)) (byte ∷ [])
      (be_bytes j v) byte _ (Reads-next_byte byte)
      (rw round.0 (
        subst (Reads (be_loop j w (acc * 2 ^ 8 + byte)) (be_bytes j v)) value
          (be_loop-Reads j w (acc * 2 ^ 8 + byte) v round.1)))
  where
    byte : ℕ
    byte = v / 2 ^ (8 * j) % 2 ^ 8

    round :
        (bit_or (acc * 2 ^ 8 % 2 ^ w) byte ≡ acc * 2 ^ 8 + byte)
        × ((acc * 2 ^ 8 + byte + 1) * 2 ^ (8 * j) ≤ 2 ^ w)
    round = be_round j w acc byte (omega arith) h

    value :
        (acc * 2 ^ 8 + byte) * 2 ^ (8 * j) + v % 2 ^ (8 * j)
        ≡ acc * 2 ^ (8 * suc j) + v % 2 ^ (8 * suc j)
    value = omega (
      arith,
      split_byte v (2 ^ (8 * j)) (one-le-pow (8 * j) 2 (omega arith)),
      ap (λ (t : ℕ). acc * t) (shift_byte j),
      ap (λ (t : ℕ). v % t) (shift_byte j),
    )

-- `read_be` takes back the low bytes that `push_be` wrote.
pub Reads-read_be : (i v : ℕ) → Reads (read_be i) (be_bytes i v) (v % 2 ^ (8 * i))
unfolding read_be
Reads-read_be i v r rest valid u =
    let fits : ltb (length r.source) ((r.position + i) % 2 ^ 64) ≡ false = ltb-false _ _ (
      omega (
        arith,
        valid.addressable,
        unread_length r (be_bytes i v) rest valid u,
        length-be_bytes i v,
      )) in
    rw (fits, read_be)
      (subst (Reads (be_loop i (8 * i) 0) (be_bytes i v)) {x = 0 * 2 ^ (8 * i) + v % 2 ^ (8 * i)}
        (omega arith) (be_loop-Reads i (8 * i) 0 v (omega arith)) r rest valid u)

pub Reads-be : (i v : ℕ) → v < 2 ^ (8 * i) → Reads (read_be i) (be_bytes i v) v
Reads-be i v h = subst (Reads (read_be i) (be_bytes i v)) (mod-eq_of_lt h) (Reads-read_be i v)

pub RoundTrips-be : (i v : ℕ) → v < 2 ^ (8 * i) → RoundTrips (push_be i v) (read_be i) v
RoundTrips-be i v h = (be_bytes i v, Writes-push_be i v, Reads-be i v h)

pub Reads-u8 : (b : ℕ) → Reads Reader.u8 (b ∷ []) b
unfolding Reader.u8
Reads-u8 b r rest valid u =
    let fits : ltb (length r.source) ((r.position + 1) % 2 ^ 64) ≡ false =
      ltb-false _ _ (omega (arith, valid.addressable, unread_length r (b ∷ []) rest valid u)) in
    rw (fits, Reader.u8) (Reads-next_byte b r rest valid u)

pub RoundTrips-u8 : (v : ℕ) → v < 2 ^ 8 → RoundTrips (Writer.u8 v) Reader.u8 v
RoundTrips-u8 v h = (
  v % 2 ^ 8 ∷ [],
  Writes-u8 v,
  subst (Reads Reader.u8 (v % 2 ^ 8 ∷ [])) (mod-eq_of_lt h) (Reads-u8 (v % 2 ^ 8)),
)

pub RoundTrips-u16 : (v : ℕ) → v < 2 ^ 16 → RoundTrips (Writer.u16 v) Reader.u16 v
unfolding Writer.u16 Reader.u16
RoundTrips-u16 = RoundTrips-be 2

pub RoundTrips-u64 : (v : ℕ) → v < 2 ^ 64 → RoundTrips (Writer.u64 v) Reader.u64 v
unfolding Writer.u64 Reader.u64
RoundTrips-u64 = RoundTrips-be 8

pub RoundTrips-scalar32 :
    (v : ℕ) → v < 2 ^ 32 → RoundTrips (Writer.write_scalar32 v) Reader.read_scalar32 v
unfolding Writer.write_scalar32 Reader.read_scalar32
RoundTrips-scalar32 = RoundTrips-be 4

short : (v : ℕ) → v < 2 ^ 7 → leb 0x80 v ≡ false
short v h = ground arith

-- One byte by `i8`, read back as an `int8_t` that is not negative.
pub RoundTrips-i8 : (v : ℕ) → v < 2 ^ 7 → RoundTrips (Writer.i8 v) Reader.i8 v
unfolding Writer.i8 Reader.i8
RoundTrips-i8 v h = RoundTrips-map (Writer.u8 v) (read_be 1) _ v v (rw (short v h)) (
  be_bytes 1 v,
  subst (Writes (Writer.u8 v)) {x = v % 2 ^ 8 ∷ []} (ap (λ b. b ∷ []) (omega arith)) (Writes-u8 v),
  Reads-be 1 v (omega arith),
)

pub Writes-scalar32 : (v : ℕ) → Writes (Writer.write_scalar32 v) (be_bytes 4 v)
unfolding Writer.write_scalar32
Writes-scalar32 = Writes-push_be 4

pub Reads-scalar32 : (v : ℕ) → v < 2 ^ 32 → Reads Reader.read_scalar32 (be_bytes 4 v) v
unfolding Reader.read_scalar32
Reads-scalar32 = Reads-be 4
