-- ===== src/Bytes/Overlong.antt =====
-- `ByteReader::var_u32` on a varint of six bytes. Its loop tests `shift > 35` only behind the shift, so
-- the sixth byte is shifted by 35, which C++ leaves undefined for a 32-bit number.
use atlas_net.Prelude.{
  ℕ, zero, suc, ◌+◌, ◌*◌, ◌%◌, ◌^◌, ◌≤◌, ◌<◌, ◌≡◌, ap, ◌∙◌, List, [], ◌∷◌, ◌++◌, length, All, arith,
  bit_or, bit_and,
}
use atlas_net.Prelude.Bits.{top_bit}
use atlas_net.Bytes.Result.{err, undefined}
use atlas_net.Bytes.Reader
use atlas_net.Bytes.Reader.{ByteReader}
use atlas_net.Bytes.Codec.{IsValid, unread, skip, skip-IsValid, unread-skip}
use atlas_net.Bytes.Integers.{Reads-u8}

-- A byte whose top bit says that more follows.
abbrev pub IsMore : ℕ → Type 0
IsMore b = (128 ≤ b) × (b < 256)

abbrev grown : ℕ → ℕ → ℕ → ℕ
grown acc b shift = bit_or acc (bit_and b 0x7f * 2 ^ shift % 2 ^ 32)

one_more :
    (fuel acc shift b : ℕ) (rest : List ℕ) (r : ByteReader)
    → IsMore b
    → shift ≤ 28
    → IsValid r
    → unread r ≡ b ∷ rest
    → Reader.var_u32_loop (suc fuel) acc shift r
      ≡ Reader.var_u32_loop fuel (grown acc b shift) (shift + 7) (skip 1 r)
unfolding Reader.var_u32_loop
one_more fuel acc shift b rest r more low v u = ground (arith, Reads-u8 b r rest v u, top_bit b)

too_far :
    (fuel acc b : ℕ) (rest : List ℕ) (r : ByteReader)
    → IsValid r
    → unread r ≡ b ∷ rest
    → Reader.var_u32_loop (suc fuel) acc 35 r ≡ err undefined
unfolding Reader.var_u32_loop
too_far fuel acc b rest r v u = ground (arith, Reads-u8 b r rest v u)

runs_over :
    (bs : List ℕ) (fuel acc shift b : ℕ) (rest : List ℕ) (r : ByteReader)
    → length bs ≤ fuel
    → All IsMore bs
    → shift + 7 * length bs ≡ 35
    → IsValid r
    → unread r ≡ bs ++ (b ∷ rest)
    → Reader.var_u32_loop (suc fuel) acc shift r ≡ err undefined
runs_over [] fuel acc shift b rest r f more e v u =
    ap (λ s. Reader.var_u32_loop (suc fuel) acc s r) {x = shift} {y = 35} (omega arith)
    ∙ too_far fuel acc b rest r v u
runs_over (x ∷ bs) zero acc shift b rest r f more e v u = absurd (omega arith)
runs_over (x ∷ bs) (suc fuel) acc shift b rest r f more e v u =
    one_more (suc fuel) acc shift x (bs ++ (b ∷ rest)) r more.0 (omega arith) v u
    ∙ runs_over bs fuel (grown acc x shift) (shift + 7) b rest (skip 1 r) (omega arith) more.1
        (omega arith) (skip-IsValid r (x ∷ []) (bs ++ (b ∷ rest)) v u)
        (unread-skip r (x ∷ []) (bs ++ (b ∷ rest)) v u)

-- Where the reader is valid, and five bytes with the top bit set come next and any byte behind them,
-- `var_u32` runs into the undefined shift.
pub var_u32_undefined :
    (r : ByteReader) (bs : List ℕ) (b : ℕ) (rest : List ℕ)
    → IsValid r
    → length bs ≡ 5
    → All IsMore bs
    → unread r ≡ bs ++ (b ∷ rest)
    → Reader.var_u32 r ≡ err undefined
unfolding Reader.var_u32
var_u32_undefined r bs b rest v five more u =
    runs_over bs 5 0 0 b rest r (omega arith) more (omega arith) v u
