-- ===== src/Bytes/Result.antt =====
-- What a call that may throw returns: `ByteError` of ByteStream.hpp, the runtime errors that packets and
-- the heuristic manifest throw, those of the C++ library, and `redis_error`, which redis++ throws on an
-- error reply. `not_implemented` is an assertion that fails while bytes are read.

-- `undefined` stands for behaviour that C++ leaves undefined; the model stops there.
pub data Error : Type 0 where
  bits_too_wide read_overflow string_overflow uuid_overflow blob_overflow : Error
  varint_overflow tlv_overflow : Error
  invalid_stage : Error
  invalid_heuristic redis_error bad_optional_access invalid_argument not_implemented out_of_range :
      Error
  undefined : Error

pub data Result {ℓ} (A : Type ℓ) : Type ℓ where
  ok : A → Result A
  err : Error → Result A

infixl 5 ◌>>=◌
abbrev pub ◌>>=◌ {ℓ κ} : {A : Type ℓ} {B : Type κ} → Result A → (A → Result B) → Result B
ok a >>= f = f a
err e >>= f = err e
