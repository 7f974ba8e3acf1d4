-- ===== src/Packets/Hash.antt =====
-- `HashString` of AtlasNet/lib/Native/Network/Packet/Packet.hpp: the 32-bit FNV-1a hash of a packet's
-- name, which is its type on the wire.
use Prim.Native.Char.{code}
use Prim.Native.String.{String}
use atlas_net.Prelude.{ℕ, ◌*◌, ◌%◌, ◌^◌, ◌<◌, bit_xor, List, [], ◌∷◌, arith}

-- The characters of a packet's name, all of them ASCII.
abbrev pub codes : String → List ℕ
codes String.[] = []
codes (String.◌∷◌ c s) = code c ∷ codes s

unfoldable pub hash_loop : ℕ → List ℕ → ℕ
hash_loop hash [] = hash
hash_loop hash (c ∷ cs) = hash_loop (bit_xor hash (c % 2 ^ 8) * 16777619 % 2 ^ 32) cs

unfoldable pub hash_string : List ℕ → ℕ
unfolding hash_loop
hash_string s = hash_loop 2166136261 s

hash_loop_lt : (hash : ℕ) (s : List ℕ) → hash < 2 ^ 32 → hash_loop hash s < 2 ^ 32
unfolding hash_loop
hash_loop_lt hash [] h = h
hash_loop_lt hash (c ∷ cs) h =
    hash_loop_lt (bit_xor hash (c % 2 ^ 8) * 16777619 % 2 ^ 32) cs (omega arith)

pub hash_string_lt : (s : List ℕ) → hash_string s < 2 ^ 32
unfolding hash_string
hash_string_lt s = hash_loop_lt 2166136261 s (omega arith)
