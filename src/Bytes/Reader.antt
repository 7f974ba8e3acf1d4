-- ===== src/Bytes/Reader.antt =====
-- ByteReader.hpp over plain bytes. `source` is the span `p`, `n` its length and `position` is `i`.
-- A method returns its value and the new reader; what throws drops the reader.
use atlas_net.Prelude.{
  ℕ, zero, suc, ◌+◌, ◌-◌, ◌*◌, ◌/◌, ◌%◌, ◌^◌, bit_and, bit_or, bit_xor, List, ltb, leb, ◌==◌,
  if◌then◌else◌, length, get_elem?, take, drop, Option, none, some,
}
use atlas_net.Bytes.Result.{Result, Error, ok, err, read_overflow, string_overflow, uuid_overflow}
use atlas_net.Bytes.Result.{blob_overflow, varint_overflow, tlv_overflow, bits_too_wide, undefined}
use atlas_net.Bytes.Writer.{Vec3}

pub record ByteReader : Type 0 where
  pub source : List ℕ
  pub position : ℕ
  pub bit_buffer : ℕ
  pub bit_pos : ℕ

abbrev pub Read {ℓ} : Type ℓ → Type ℓ
Read A = ByteReader → Result (A × ByteReader)

infixl 5 ◌>>=◌
abbrev pub ◌>>=◌ {ℓ κ} : {A : Type ℓ} {B : Type κ} → Read A → (A → Read B) → Read B
◌>>=◌ m f r = elim (m r) [ ok (a, s) ↦ f a s | err e ↦ err e ]

abbrev pub return {ℓ} : {A : Type ℓ} → A → Read A
return a r = ok (a, r)

abbrev pub throw {ℓ} : {A : Type ℓ} → Error → Read A
throw e r = err e

unfoldable pub new : List ℕ → ByteReader
new bytes = record { source = bytes; position = 0; bit_buffer = 0; bit_pos = 0 }

abbrev pub size : ByteReader → ℕ
size r = length r.source

-- `n - i`, as a size_t.
abbrev pub remaining : ByteReader → ℕ
remaining r = (size r + 2 ^ 64 - r.position) % 2 ^ 64

abbrev pub advance : ℕ → ByteReader → ByteReader
advance n r = record r { position = (r.position + n) % 2 ^ 64 }

-- `p[i++]`; to read behind the span is undefined.
unfoldable pub next_byte : Read ℕ
next_byte r = elim (get_elem? r.source r.position) [
  | none ↦ err undefined
  | some b ↦ ok (b, advance 1 r)
]

-- `n` bytes from `p + i`, which a memcpy or a constructor copies, or a span names.
unfoldable pub copy : ℕ → Read (List ℕ)
copy n r =
    if leb (r.position + n) (size r)
    then ok (take n (drop r.position r.source), advance n r)
    else err undefined

unfoldable pub read : ℕ → Read (List ℕ)
read bytes r =
    if ltb (size r) ((r.position + bytes) % 2 ^ 64) then err read_overflow else copy bytes r

-- The loop of `read_be`, for a type of `w` bits; the first number counts the rounds left.
unfoldable pub be_loop : ℕ → ℕ → ℕ → Read ℕ
be_loop zero w v = return v
be_loop (suc j) w v = do b ← next_byte; be_loop j w (bit_or (v * 2 ^ 8 % 2 ^ w) b)

unfoldable pub read_be : ℕ → Read ℕ
read_be bytes r =
    if ltb (size r) ((r.position + bytes) % 2 ^ 64)
    then err read_overflow
    else be_loop bytes (8 * bytes) 0 r

-- `read_int<uint8_t>`: a memcpy of one byte.
unfoldable pub u8 : Read ℕ
u8 r = if ltb (size r) ((r.position + 1) % 2 ^ 64) then err read_overflow else next_byte r

unfoldable pub u16 : Read ℕ
u16 = read_be 2

unfoldable pub u32 : Read ℕ
u32 = read_be 4

unfoldable pub u64 : Read ℕ
u64 = read_be 8

-- An int8_t widened to the int32_t that is returned, as a pattern.
unfoldable pub i8 : Read ℕ
i8 = do v ← read_be 1; return (if leb 0x80 v then v + (2 ^ 32 - 2 ^ 8) else v)

pub i16 : Read ℕ
i16 = do v ← read_be 2; return (if leb 0x8000 v then v + (2 ^ 32 - 2 ^ 16) else v)

unfoldable pub i32 : Read ℕ
i32 = read_be 4

pub i64 : Read ℕ
i64 = read_be 8

unfoldable pub f32 : Read ℕ
f32 = u32

pub f64 : Read ℕ
f64 = u64

unfoldable pub read_scalar32 : Read ℕ
read_scalar32 = read_be 4

unfoldable pub vec3 : Read Vec3
vec3 = do x ← f32; y ← f32; z ← f32; return (record { x = x; y = y; z = z })

unfoldable pub read_vector3 : Read Vec3
read_vector3 = do x ← f32; y ← f32; z ← f32; return (record { x = x; y = y; z = z })

-- A left shift of a 32-bit number by 32 or more is undefined. The loop leaves at shift 42 at the
-- latest, so its rounds are bounded by the fuel below.
unfoldable pub var_u32_loop : ℕ → ℕ → ℕ → Read ℕ
var_u32_loop zero v shift = throw undefined
var_u32_loop (suc fuel) v shift = do
  b ← u8
  let v' = bit_or v (bit_and b 0x7f * 2 ^ shift % 2 ^ 32)
  let more = if ltb 35 (shift + 7) then throw varint_overflow else var_u32_loop fuel v' (shift + 7)
  if leb 32 shift then throw undefined else if bit_and b 0x80 == 0 then return v' else more

-- The shifts 0, 7, 14, 21, 28 and 35: six rounds.
unfoldable pub var_u32 : Read ℕ
var_u32 = var_u32_loop 6 0 0

-- `(v >> 1) ^ -(int32_t(v & 1))`, as the pattern of an int32_t.
unfoldable pub unzigzag : ℕ → ℕ
unzigzag v = bit_xor (v / 2) ((2 ^ 32 - bit_and v 1) % 2 ^ 32)

unfoldable pub var_i32 : Read ℕ
var_i32 = do v ← var_u32; return (unzigzag v)

-- A varint length, and as many bytes.
unfoldable pub counted : Error → Read (List ℕ)
counted e = do len ← var_u32; λ r. if ltb (remaining r) len then err e else copy len r

unfoldable pub str : Read (List ℕ)
str = counted string_overflow

unfoldable pub blob : Read (List ℕ)
blob = counted blob_overflow

unfoldable pub uuid : Read (List ℕ)
uuid r = if ltb (remaining r) 16 then err uuid_overflow else read 16 r

unfoldable pub bits_loop : ℕ → ℕ → Read (Unit {0})
bits_loop zero bit_count r = err undefined
bits_loop (suc fuel) bit_count r =
    let more =
      (do
        b ← u8
        λ s. bits_loop fuel bit_count (record s {
          bit_buffer = bit_or s.bit_buffer (b * 2 ^ s.bit_pos % 2 ^ 64);
          bit_pos = (s.bit_pos + 8) % 2 ^ 8;
        }))
        r in
    if ltb r.bit_pos bit_count then more else ok (tt, r)

-- At most 32 bits are wanted, so four bytes and a last test are enough.
unfoldable pub bits : ℕ → Read ℕ
bits bit_count = if ltb 32 bit_count then throw bits_too_wide else do
  _ ← bits_loop 5 bit_count
  λ r. ok (
    bit_and r.bit_buffer (2 ^ bit_count - 1) % 2 ^ 32,
    record r {
      bit_buffer = r.bit_buffer / 2 ^ bit_count;
      bit_pos = (r.bit_pos + 2 ^ 8 - bit_count) % 2 ^ 8;
    },
  )

unfoldable pub align_bits : ByteReader → ByteReader
align_bits r = record r { bit_buffer = 0; bit_pos = 0 }

-- `false` is `none`; else the tag and the value.
unfoldable pub next_tlv : Read (Option (ℕ × List ℕ))
next_tlv r =
    if remaining r == 0
    then ok (none, r)
    else (do tag ← u16; value ← counted tlv_overflow; return (some (tag, value))) r
