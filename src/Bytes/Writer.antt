-- ===== src/Bytes/Writer.antt =====
-- ByteWriter.hpp. A method takes its arguments, then the writer, and returns the new writer, so
-- that a chain `w.f(a).g(b)` is `g b (f a w)`. Signed integers, floats and enumerators enter as the
-- bit patterns that the source converts them to.
use atlas_net.Prelude.{
  ℕ, zero, suc, ◌+◌, ◌-◌, ◌*◌, ◌/◌, ◌%◌, ◌^◌, bit_or, bit_xor, List, [], ◌∷◌, ◌++◌, ltb, leb,
  if◌then◌else◌, length,
}
use atlas_net.Bytes.Result.{Result, ok, err, bits_too_wide}

pub record ByteWriter : Type 0 where
  pub buf : List ℕ
  pub bit_buffer : ℕ
  pub bit_pos : ℕ

abbrev pub Write : Type 0
Write = ByteWriter → ByteWriter

unfoldable pub new : ByteWriter
new = record { buf = []; bit_buffer = 0; bit_pos = 0 }

pub clear : Write
clear w = record w { buf = [] }

pub size : ByteWriter → ℕ
size w = length w.buf

-- `write(p, n)`, of the `n` bytes that stand at `p`.
unfoldable pub write : List ℕ → Write
write bytes w = record w { buf = w.buf ++ bytes }

unfoldable pub u8 : ℕ → Write
u8 v w = record w { buf = w.buf ++ v % 2 ^ 8 ∷ [] }

-- The loop from `i = sizeof(T) - 1` down to 0; the argument is the number of rounds left.
unfoldable pub push_be : ℕ → ℕ → Write
push_be zero v w = w
push_be (suc i) v w = push_be i v (u8 (v / 2 ^ (8 * i)) w)

unfoldable pub u16 : ℕ → Write
u16 v = push_be 2 v

unfoldable pub u32 : ℕ → Write
u32 v = push_be 4 v

unfoldable pub u64 : ℕ → Write
u64 v = push_be 8 v

unfoldable pub i8 : ℕ → Write
i8 v = u8 v

pub i16 : ℕ → Write
i16 v = u16 v

unfoldable pub i32 : ℕ → Write
i32 v = u32 v

pub i64 : ℕ → Write
i64 v = u64 v

unfoldable pub f32 : ℕ → Write
f32 v = u32 v

pub f64 : ℕ → Write
f64 v = u64 v

-- The enumerations of the packets have the underlying type `int`, or GCC's `unsigned int`.
unfoldable pub write_scalar32 : ℕ → Write
write_scalar32 v = push_be 4 v

pub record Vec3 : Type 0 where
  pub x : ℕ
  pub y : ℕ
  pub z : ℕ

unfoldable pub vec3 : Vec3 → Write
vec3 v w = f32 v.z (f32 v.y (f32 v.x w))

-- `write_vector<3>`: the loop over the components of a vector of floats.
unfoldable pub write_vector3 : Vec3 → Write
write_vector3 v w = f32 v.z (f32 v.y (f32 v.x w))

unfoldable pub var_u32_loop : ℕ → ℕ → Write
var_u32_loop zero v w = w
var_u32_loop (suc fuel) v w =
    let more = var_u32_loop fuel (v / 2 ^ 7) (u8 (bit_or (v % 2 ^ 8) 0x80) w) in
    if leb 0x80 v then more else u8 v w

-- Five rounds are enough for 32 bits.
unfoldable pub var_u32 : ℕ → Write
var_u32 v = var_u32_loop 5 v

-- `(v << 1) ^ (v >> 31)` on the pattern of an int32_t, whose right shift copies the sign.
unfoldable pub zigzag : ℕ → ℕ
zigzag v = bit_xor (v * 2 % 2 ^ 32) (if leb (2 ^ 31) v then 2 ^ 32 - 1 else 0)

unfoldable pub var_i32 : ℕ → Write
var_i32 v = var_u32 (zigzag v)

-- `uint32_t(s.size())` in front of the bytes.
unfoldable pub str : List ℕ → Write
str s w = write s (var_u32 (length s % 2 ^ 32) w)

unfoldable pub blob : List ℕ → Write
blob b w = write b (var_u32 (length b % 2 ^ 32) w)

-- A UUID is its sixteen bytes.
unfoldable pub uuid : List ℕ → Write
uuid id w = write id w

unfoldable pub flush_loop : ℕ → Write
flush_loop zero w = w
flush_loop (suc fuel) w =
    let byte = u8 w.bit_buffer w in
    let more =
      flush_loop fuel
        (record byte { bit_buffer = w.bit_buffer / 2 ^ 8; bit_pos = w.bit_pos - 8 }) in
    if leb 8 w.bit_pos then more else w

-- `bitPos` is a uint8_t, so 31 rounds bring it below 8.
unfoldable pub flush_bits : Write
flush_bits = flush_loop 32

unfoldable pub bits : ℕ → ℕ → ByteWriter → Result ByteWriter
bits value bit_count w =
    if ltb 32 bit_count
    then err bits_too_wide
    else ok (
        flush_bits (record w {
          bit_buffer = bit_or w.bit_buffer (value * 2 ^ w.bit_pos % 2 ^ 64);
          bit_pos = (w.bit_pos + bit_count) % 2 ^ 8;
        }))

unfoldable pub finalize_bits : Write
finalize_bits w =
    if ltb 0 w.bit_pos then record (u8 w.bit_buffer w) { bit_buffer = 0; bit_pos = 0 } else w

unfoldable pub tlv : ℕ → ByteWriter → Write
tlv tag payload w = write payload.buf (var_u32 (length payload.buf % 2 ^ 32) (u16 tag w))
