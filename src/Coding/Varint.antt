-- ===== src/Coding/Varint.antt =====
-- util/coding.cc: integers of variable length, seven bits a byte, lowest first, with the top bit
-- set on every byte but the last.
use bl_nova_lsm.Common.{
  ℕ, zero, suc, ◌+◌, ◌*◌, ◌/◌, ◌%◌, ◌^◌, bit_and, bit_or, Option, none, some, List, [], ◌∷◌, ◌++◌,
  ltb, leb, ◌==◌, if◌then◌else◌, ◌>>=◌, ◌>>◌, guard, length, take, drop, arith,
}
use bl_nova_lsm.Coding.{Bytes}
pub mod RoundTrip

-- `*(ptr++) = v | B` stores the low byte.
abbrev more_byte : ℕ → ℕ
more_byte v = bit_or v 128 % 256

abbrev last_byte : ℕ → ℕ
last_byte v = v % 256

unfoldable pub encode_varint32 : ℕ → Bytes
encode_varint32 v =
    if ltb v (2 ^ 7)
    then last_byte v ∷ []
    else if ltb v (2 ^ 14)
    then more_byte v ∷ last_byte (v / 2 ^ 7) ∷ []
    else if ltb v (2 ^ 21)
    then more_byte v ∷ more_byte (v / 2 ^ 7) ∷ last_byte (v / 2 ^ 14) ∷ []
    else if ltb v (2 ^ 28)
    then more_byte v ∷ more_byte (v / 2 ^ 7) ∷ more_byte (v / 2 ^ 14) ∷ last_byte (v / 2 ^ 21) ∷ []
    else more_byte v
      ∷ more_byte (v / 2 ^ 7)
      ∷ more_byte (v / 2 ^ 14)
      ∷ more_byte (v / 2 ^ 21)
      ∷ last_byte (v / 2 ^ 28)
      ∷ []

-- The loop of EncodeVarint64, with a count of the rounds that it may still make.
pub encode_varint64_loop : ℕ → ℕ → Bytes
encode_varint64_loop zero v = last_byte v ∷ []
encode_varint64_loop (suc k) v =
    let rest = encode_varint64_loop k (v / 2 ^ 7) in
    if leb 128 v then more_byte v ∷ rest else last_byte v ∷ []

-- A uint64 takes nine rounds and the last byte; the buffer of PutVarint64 has ten.
unfoldable pub encode_varint64 : ℕ → Bytes
unfolding encode_varint64_loop
encode_varint64 v = encode_varint64_loop 9 v

-- The loop of VarintLength.
pub varint_length_loop : ℕ → ℕ → ℕ → ℕ
varint_length_loop zero v len = len
varint_length_loop (suc k) v len =
    let rest = varint_length_loop k (v / 2 ^ 7) (len + 1) in if leb 128 v then rest else len

unfoldable pub varint_length : ℕ → ℕ
varint_length v = varint_length_loop 9 v 1

-- The loop of GetVarint32PtrFallback and GetVarint64Ptr, with the highest shift and the width.
unfoldable pub get_varint_loop : ℕ → ℕ → ℕ → ℕ → Bytes → Option (ℕ × Bytes)
get_varint_loop last width shift result [] = none
get_varint_loop last width shift result (b ∷ rest) =
    let result_more = bit_or result (bit_and b 127 * 2 ^ shift % 2 ^ width) in
    let more = get_varint_loop last width (shift + 7) result_more rest in
    if leb shift last
    then if bit_and b 128 == 0 then some (bit_or result (b * 2 ^ shift % 2 ^ width), rest) else more
    else none

-- GetVarint32Ptr takes a single byte at once.
unfoldable pub get_varint32 : Bytes → Option (ℕ × Bytes)
unfolding get_varint_loop
get_varint32 [] = get_varint_loop 28 32 0 0 []
get_varint32 (b ∷ rest) =
    if bit_and b 128 == 0 then some (b, rest) else get_varint_loop 28 32 0 0 (b ∷ rest)

unfoldable pub get_varint64 : Bytes → Option (ℕ × Bytes)
unfolding get_varint_loop
get_varint64 input = get_varint_loop 63 64 0 0 input

unfoldable pub put_length_prefixed_slice : Bytes → Bytes → Bytes
put_length_prefixed_slice dst value = dst ++ (encode_varint32 (length value) ++ value)

pub get_length_prefixed_slice : Bytes → Option (Bytes × Bytes)
get_length_prefixed_slice input = do
  (len, rest) ← get_varint32 input
  guard (leb len (length rest))
  some (take len rest, drop len rest)
