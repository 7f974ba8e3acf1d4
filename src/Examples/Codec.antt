-- ===== src/Examples/Codec.antt =====
-- Byte strings that can be followed by hand.
use atlas_net.Prelude.{ℕ, ◌-◌, ◌^◌, ◌≡◌, refl, List, [], ◌∷◌, arith}
use atlas_net.Bytes.Result.{err, undefined}
use atlas_net.Bytes.Writer
use atlas_net.Bytes.Reader
use atlas_net.Bytes.Codec.{RoundTrips}
use atlas_net.Bytes.Varint.{RoundTrips-var_u32}
use atlas_net.Bytes.Blobs.{RoundTrips-str}
use atlas_net.Bytes.Overlong.{var_u32_undefined}

three_hundred : (Writer.var_u32 300 Writer.new).buf ≡ 0xac ∷ 0x02 ∷ []
unfolding Writer.var_u32 Writer.var_u32_loop Writer.u8 Writer.new
three_hundred = refl

minus_two : Writer.zigzag (2 ^ 32 - 2) ≡ 3
unfolding Writer.zigzag
minus_two = refl

big_endian : (Writer.u32 0x01020304 Writer.new).buf ≡ 1 ∷ 2 ∷ 3 ∷ 4 ∷ []
unfolding Writer.u32 Writer.push_be Writer.u8 Writer.new
big_endian = refl

RoundTrips-var_u32_example : RoundTrips (Writer.var_u32 300) Reader.var_u32 300
RoundTrips-var_u32_example = RoundTrips-var_u32 300 (omega arith)

RoundTrips-str_example : RoundTrips (Writer.str (104 ∷ 105 ∷ [])) Reader.str (104 ∷ 105 ∷ [])
RoundTrips-str_example = RoundTrips-str (104 ∷ 105 ∷ []) (omega arith)

abbrev two_bytes : List ℕ
two_bytes = 7 ∷ 8 ∷ []

abbrev five_more : List ℕ
five_more = 0x80 ∷ 0x80 ∷ 0x80 ∷ 0x80 ∷ 0x80 ∷ []

var_u32_undefined_example :
    Reader.var_u32 (Reader.new (0x80 ∷ 0x80 ∷ 0x80 ∷ 0x80 ∷ 0x80 ∷ 1 ∷ [])) ≡ err undefined
unfolding Reader.new
var_u32_undefined_example =
    var_u32_undefined (Reader.new (0x80 ∷ 0x80 ∷ 0x80 ∷ 0x80 ∷ 0x80 ∷ 1 ∷ [])) five_more 1 []
      (record { within = omega arith; addressable = omega arith }) refl (omega arith) refl
