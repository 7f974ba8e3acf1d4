-- ===== src/Bytes/Varint.antt =====
-- Variable-length integers: `var_u32` and `var_i32` of ByteWriter.hpp and ByteReader.hpp.
use mathlib.Core.Path.{subst}
use native.Mathlib.Numerals.{towards_suc}
use native.Mathlib.Nat.{mod-eq_of_lt, div-add-mod, pow-suc}
use atlas_net.Prelude.{
  ℕ, zero, suc, ◌+◌, ◌-◌, ◌*◌, ◌/◌, ◌%◌, ◌^◌, ◌≤◌, ◌<◌, ◌≡◌, ap, ◌∙◌, List, [], ◌∷◌, ◌++◌,
  append_assoc, arith, bit_or, bit_and, ltb, leb, ◌==◌, if◌then◌else◌, true, false, Bool-cases,
  ltb→lt, ltb_false→le, inl, inr,
}
use atlas_net.Prelude.Bits.{
  bit_or_above, bit_and_mask, bit_xor_ones, bit_xor-zero, set_top_bit, top_bit,
}
use atlas_net.Bytes.Writer
use atlas_net.Bytes.Writer.{ByteWriter}
use atlas_net.Bytes.Reader
use atlas_net.Bytes.Reader.{Read, ◌>>=◌, return, throw}
use atlas_net.Bytes.Codec.{Writes, Reads, RoundTrips, Reads-bind, Reads-return, RoundTrips-map}
use atlas_net.Bytes.Integers.{Reads-u8}

-- Groups of seven bits, the lowest first; all but the last carry the top bit.
abbrev pub groups : ℕ → ℕ → List ℕ
groups zero v = v ∷ []
groups (suc k) v =
    let rest = groups k (v / 128) in if ltb v 128 then v ∷ [] else (v % 128 + 128) ∷ rest

byte_fits : (v : ℕ) → v < 128 → v % 2 ^ 8 ≡ v
byte_fits v h = omega arith

last_group : (fuel v : ℕ) → v < 128 → Writes (Writer.var_u32_loop (suc fuel) v) (v ∷ [])
unfolding Writer.var_u32_loop Writer.u8
last_group fuel v h w =
    let short : leb 0x80 v ≡ false = ground arith in rw (short, Writer.var_u32_loop, byte_fits v h)

inner_group :
    (fuel v : ℕ) (w : ByteWriter)
    → 128 ≤ v
    → Writer.var_u32_loop (suc fuel) v w
      ≡ Writer.var_u32_loop fuel (v / 128) (record w { buf = w.buf ++ (v % 128 + 128) ∷ [] })
unfolding Writer.var_u32_loop Writer.u8
inner_group fuel v w h =
    let long : leb 0x80 v ≡ true = ground arith in
    rw (long, Writer.var_u32_loop)
      (ap (λ b. Writer.var_u32_loop fuel (v / 128) (record w { buf = w.buf ++ b ∷ [] }))
        (omega (arith, set_top_bit (v % 2 ^ 8) (omega arith))))

share_lt : (k v : ℕ) → v < 128 ^ suc (suc k) → v / 128 < 128 ^ suc k
share_lt k v h = omega (arith, pow-suc 128 (suc k))

Writes-var_u32_loop :
    (k v : ℕ) → v < 128 ^ suc k → Writes (Writer.var_u32_loop (suc k) v) (groups k v)
Writes-var_u32_loop zero v h w = last_group zero v (omega arith) w
Writes-var_u32_loop (suc k) v h w = elim (Bool-cases (ltb v 128)) [
  | inl small ↦ rw small (last_group (suc k) v (ground arith) w)
  | inr large ↦
      let byte = (v % 128 + 128) ∷ [] in
      rw large (
        inner_group (suc k) v w (ground arith)
        ∙ Writes-var_u32_loop k (v / 128) (share_lt k v h) (record w { buf = w.buf ++ byte })
        ∙ ap (λ b. record w { buf = b }) (append_assoc w.buf byte (groups k (v / 128))))
]

pub Writes-var_u32 : (v : ℕ) → v < 2 ^ 32 → Writes (Writer.var_u32 v) (groups 4 v)
unfolding Writer.var_u32
Writes-var_u32 v h = Writes-var_u32_loop 4 v (omega arith)

shift_seven : (s : ℕ) → 2 ^ (s + 7) ≡ 128 * 2 ^ s
shift_seven s = simp towards_suc (omega arith)

-- Both shares of a number, shifted by `s`.
shares : (v s : ℕ) → v % 128 * 2 ^ s + v / 128 * 2 ^ (s + 7) ≡ v * 2 ^ s
shares v s = omega (
  arith,
  ap (λ (t : ℕ). v / 128 * t) (shift_seven s),
  ap (λ (t : ℕ). t * 2 ^ s) (div-add-mod v 128),
)

-- What one round adds: the low seven bits of a byte, above all that was read before.
add_share :
    (acc b g shift : ℕ)
    → b % 128 ≡ g
    → acc < 2 ^ shift
    → g * 2 ^ shift < 2 ^ 32
    → bit_or acc (bit_and b 0x7f * 2 ^ shift % 2 ^ 32) ≡ acc + g * 2 ^ shift
add_share acc b g shift e small fits =
    rw (bit_and_mask 7 b, e, mod-eq_of_lt fits) (bit_or_above shift acc g small)

Reads-last :
    (fuel acc v shift : ℕ)
    → v < 128
    → shift ≤ 28
    → acc < 2 ^ shift
    → v * 2 ^ shift < 2 ^ 32
    → Reads (Reader.var_u32_loop (suc fuel) acc shift) (v ∷ []) (acc + v * 2 ^ shift)
unfolding Reader.var_u32_loop
Reads-last fuel acc v shift h low small fits =
    Reads-bind Reader.u8 _ (v ∷ []) [] v (acc + v * 2 ^ shift) (Reads-u8 v)
      (rw (defined, last, add_share acc v v shift (omega arith) small fits) (Reads-return _))
  where
    defined : leb 32 shift ≡ false
    defined = ground arith

    last : (bit_and v 0x80 == 0) ≡ true
    last = ground (arith, top_bit v)

Reads-inner :
    (fuel acc g shift v : ℕ) (bs : List ℕ)
    → g < 128
    → shift ≤ 28
    → acc < 2 ^ shift
    → g * 2 ^ shift < 2 ^ 32
    → Reads (Reader.var_u32_loop fuel (acc + g * 2 ^ shift) (shift + 7)) bs v
    → Reads (Reader.var_u32_loop (suc fuel) acc shift) ((g + 128) ∷ bs) v
unfolding Reader.var_u32_loop
Reads-inner fuel acc g shift v bs h low small fits rest =
    Reads-bind Reader.u8 _ ((g + 128) ∷ []) bs (g + 128) v (Reads-u8 (g + 128))
      (rw (defined, more, within, add_share acc (g + 128) g shift (omega arith) small fits) rest)
  where
    defined : leb 32 shift ≡ false
    defined = ground arith

    more : (bit_and (g + 128) 0x80 == 0) ≡ false
    more = ground (arith, top_bit (g + 128))

    within : ltb 35 (shift + 7) ≡ false
    within = ground arith

scaled : (a b p : ℕ) → a ≤ b → a * p ≤ b * p
scaled a b p h = grind arith

grows : (acc v shift : ℕ) → acc < 2 ^ shift → acc + v % 128 * 2 ^ shift < 2 ^ (shift + 7)
grows acc v shift h =
    omega (arith, shift_seven shift, scaled (v % 128) 127 (2 ^ shift) (omega arith))

Reads-var_u32_loop :
    (k fuel acc v shift : ℕ)
    → k ≤ fuel
    → v < 128 ^ suc k
    → shift + 7 * k ≤ 28
    → acc < 2 ^ shift
    → v * 2 ^ shift < 2 ^ 32
    → Reads (Reader.var_u32_loop (suc fuel) acc shift) (groups k v) (acc + v * 2 ^ shift)
Reads-var_u32_loop zero fuel acc v shift f h low small fits =
    Reads-last fuel acc v shift (omega arith) (omega arith) small fits
Reads-var_u32_loop (suc k) zero acc v shift f h low small fits = absurd (omega arith)
Reads-var_u32_loop (suc k) (suc fuel) acc v shift f h low small fits =
    elim (Bool-cases (ltb v 128)) [
      | inl one ↦ rw one (Reads-last (suc fuel) acc v shift (ground arith) (omega arith) small fits)
      | inr more ↦ rw more (
          Reads-inner (suc fuel) acc (v % 128) shift _ (groups k (v / 128)) (omega arith)
            (omega arith) small (omega (arith, shares v shift, fits))
            (subst
              (Reads (Reader.var_u32_loop (suc fuel) (acc + v % 128 * 2 ^ shift) (shift + 7))
                (groups k (v / 128)))
              {x = acc + v % 128 * 2 ^ shift + v / 128 * 2 ^ (shift + 7)}
              (omega (arith, shares v shift))
              (Reads-var_u32_loop k fuel (acc + v % 128 * 2 ^ shift) (v / 128) (shift + 7)
                (omega arith) (share_lt k v h) (omega arith) (grows acc v shift small)
                (omega (arith, shares v shift, fits)))))
    ]

-- For every number below 2 ^ 32, `ByteWriter::var_u32` appends bytes from which `ByteReader::var_u32`
-- reads the number back and stops behind them, whatever follows.
pub RoundTrips-var_u32 : (v : ℕ) → v < 2 ^ 32 → RoundTrips (Writer.var_u32 v) Reader.var_u32 v
unfolding Reader.var_u32
RoundTrips-var_u32 v h = (
  groups 4 v,
  Writes-var_u32 v h,
  subst (Reads (Reader.var_u32_loop 6 0 0) (groups 4 v)) {x = 0 + v * 2 ^ 0} (omega arith) (
      Reads-var_u32_loop 4 5 0 v 0 (omega arith) (omega arith) (omega arith) (omega arith)
        (omega arith)),
)

-- The zigzag code of a negative and of a non-negative pattern, as arithmetic.
zigzag_minus : (v : ℕ) → 2 ^ 31 ≤ v → v < 2 ^ 32 → Writer.zigzag v ≡ 2 ^ 32 - 1 - v * 2 % 2 ^ 32
unfolding Writer.zigzag
zigzag_minus v l h =
    let minus : leb (2 ^ 31) v ≡ true = ground arith in
    rw minus (bit_xor_ones 32 (v * 2 % 2 ^ 32) (omega arith))

zigzag_plus : (v : ℕ) → v < 2 ^ 31 → Writer.zigzag v ≡ v * 2
unfolding Writer.zigzag
zigzag_plus v h =
    let plus : leb (2 ^ 31) v ≡ false = ground arith in
    rw (plus, bit_xor-zero (v * 2 % 2 ^ 32)) (omega arith)

unzigzag_odd : (x : ℕ) → x < 2 ^ 32 → x % 2 ≡ 1 → Reader.unzigzag x ≡ 2 ^ 32 - 1 - x / 2
unfolding Reader.unzigzag
unzigzag_odd x h odd = rw (bit_and_mask 1 x, odd) (bit_xor_ones 32 (x / 2) (omega arith))

unzigzag_even : (x : ℕ) → x % 2 ≡ 0 → Reader.unzigzag x ≡ x / 2
unfolding Reader.unzigzag
unzigzag_even x even = rw (bit_and_mask 1 x, even) (bit_xor-zero (x / 2))

zigzag_lt : (v : ℕ) → v < 2 ^ 32 → Writer.zigzag v < 2 ^ 32
zigzag_lt v h = elim (Bool-cases (ltb v (2 ^ 31))) [
  | inl plus ↦ let low = ltb→lt v (2 ^ 31) plus in omega (arith, zigzag_plus v low)
  | inr minus ↦ let high = ltb_false→le v (2 ^ 31) minus in omega (arith, zigzag_minus v high h)
]

-- The zigzag code of an int32_t is undone, for every pattern.
pub unzigzag-zigzag : (v : ℕ) → v < 2 ^ 32 → Reader.unzigzag (Writer.zigzag v) ≡ v
unzigzag-zigzag v h = elim (Bool-cases (ltb v (2 ^ 31))) [
  | inl plus ↦
      let low = ltb→lt _ _ plus in
      rw (zigzag_plus v low) (unzigzag_even (v * 2) (omega arith) ∙ omega arith)
  | inr minus ↦
      let high = ltb_false→le _ _ minus in
      rw (zigzag_minus v high h)
        (unzigzag_odd (2 ^ 32 - 1 - v * 2 % 2 ^ 32) (omega arith) (omega arith) ∙ omega arith)
]

-- For every pattern of a 32-bit integer, `ByteWriter::var_i32` appends bytes from which
-- `ByteReader::var_i32` reads the pattern back and stops behind them, whatever follows.
pub RoundTrips-var_i32 : (v : ℕ) → v < 2 ^ 32 → RoundTrips (Writer.var_i32 v) Reader.var_i32 v
unfolding Writer.var_i32 Reader.var_i32
RoundTrips-var_i32 v h =
    RoundTrips-map (Writer.var_u32 (Writer.zigzag v)) Reader.var_u32 Reader.unzigzag
      (Writer.zigzag v) v (unzigzag-zigzag v h)
      (RoundTrips-var_u32 (Writer.zigzag v) (zigzag_lt v h))
