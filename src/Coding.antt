-- ===== src/Coding.antt =====
-- util/coding.h: integers of fixed width, strings, slices and booleans in message buffers.
-- A buffer is a list of bytes. An encoder returns the bytes that it writes, so the size that the
-- source returns is the list's length. A decoder takes what is left of the slice, and returns the
-- value and the slice behind it; `none` is the result false, after which no caller reads the slice.
pub mod Fixed
pub mod Varint
pub mod Lists
mod Examples
use bl_nova_lsm.Common.{
  ℕ, ◌+◌, ◌*◌, ◌/◌, ◌%◌, ◌^◌, ◌<◌, bit_or, Bool, true, false, Option, none, some, List, [], ◌∷◌,
  ◌++◌, leb, ◌==◌, if◌then◌else◌, ◌>>=◌, ◌>>◌, guard, length, take, drop,
}

abbrev pub Bytes : Type 0
Bytes = List ℕ

abbrev pub IsByte : ℕ → Type 0
IsByte b = b < 256

abbrev pub IsU32 : ℕ → Type 0
IsU32 v = v < 2 ^ 32

abbrev pub IsU64 : ℕ → Type 0
IsU64 v = v < 2 ^ 64

-- static_cast<uint8_t>(v >> k)
abbrev pub byte_at : ℕ → ℕ → ℕ
byte_at v k = v / 2 ^ k % 256

unfoldable pub encode_fixed32 : ℕ → Bytes
encode_fixed32 v = byte_at v 0 ∷ byte_at v 8 ∷ byte_at v 16 ∷ byte_at v 24 ∷ []

unfoldable pub encode_fixed64 : ℕ → Bytes
encode_fixed64 v =
    byte_at v 0
    ∷ byte_at v 8
    ∷ byte_at v 16
    ∷ byte_at v 24
    ∷ byte_at v 32
    ∷ byte_at v 40
    ∷ byte_at v 48
    ∷ byte_at v 56
    ∷ []

-- `acc | (b << k)`, where the shifted byte stays within the word.
abbrev pub or_byte : ℕ → ℕ → ℕ → ℕ
or_byte acc b k = bit_or acc (b * 2 ^ k)

-- DecodeFixed32(const char *), on the four bytes that it reads.
unfoldable pub join32 : ℕ → ℕ → ℕ → ℕ → ℕ
join32 a b c d = or_byte (or_byte (or_byte a b 8) c 16) d 24

-- DecodeFixed64(const char *), on the eight bytes that it reads.
unfoldable pub join64 : ℕ → ℕ → ℕ → ℕ → ℕ → ℕ → ℕ → ℕ → ℕ
join64 a b c d e f g h =
    or_byte
      (or_byte (or_byte (or_byte (or_byte (or_byte (or_byte a b 8) c 16) d 24) e 32) f 40) g 48) h
      56

unfoldable pub decode_fixed32 : Bytes → Option (ℕ × Bytes)
decode_fixed32 (a ∷ b ∷ c ∷ d ∷ rest) = some (join32 a b c d, rest)
decode_fixed32 _ = none

unfoldable pub decode_fixed64 : Bytes → Option (ℕ × Bytes)
decode_fixed64 (a ∷ b ∷ c ∷ d ∷ e ∷ f ∷ g ∷ h ∷ rest) = some (join64 a b c d e f g h, rest)
decode_fixed64 _ = none

-- EncodeStr, and EncodeSlice: the length and the characters.
unfoldable pub encode_str : Bytes → Bytes
encode_str s = encode_fixed32 (length s) ++ s

-- DecodeStr(Slice *, std::string *) appends the characters to `result`.
unfoldable pub decode_str : Bytes → Bytes → Option (Bytes × Bytes)
decode_str result input = do
  (n, rest) ← decode_fixed32 input
  guard (leb n (length rest))
  some (result ++ take n rest, drop n rest)

-- DecodeStr(Slice *, Slice *, bool): the slice replaces the old one, copied or not.
unfoldable pub decode_slice : Bytes → Option (Bytes × Bytes)
decode_slice input = do
  (n, rest) ← decode_fixed32 input
  guard (leb n (length rest))
  some (take n rest, drop n rest)

unfoldable pub encode_bool : Bool → Bytes
encode_bool value = if value then b'1' ∷ [] else b'2' ∷ []

-- DecodeBool(Slice *, bool *)
unfoldable pub decode_bool : Bytes → Option (Bool × Bytes)
decode_bool [] = none
decode_bool (c ∷ rest) =
    if c == b'1' then some (true, rest) else if c == b'2' then some (false, rest) else none
