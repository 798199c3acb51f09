-- ===== src/Coding/Fixed.antt =====
-- Round trips of the fixed-width integers, strings and booleans of util/coding.h.
use bl_nova_lsm.Common.{
  ℕ, ◌+◌, ◌*◌, ◌%◌, ◌^◌, ◌<◌, ◌≡◌, refl, Bool, true, false, some, ◌++◌, append_assoc, arith, length,
  take-length-append, drop-length-append, leb, length-append,
}
use bl_nova_lsm.Common.Bits.{bit_or_fields}
use bl_nova_lsm.Coding.{
  Bytes, IsByte, IsU32, IsU64, byte_at, encode_fixed32, encode_fixed64, join32, join64, or_byte,
  decode_fixed32, decode_fixed64, encode_str, decode_str, decode_slice, encode_bool, decode_bool,
}

or_byte-sum : (k acc b : ℕ) → acc < 2 ^ k → or_byte acc b k ≡ acc + b * 2 ^ k
or_byte-sum k acc b h = bit_or_fields k acc b h

-- The bytes are joined as digits to the base 256.
join32-sum :
    (a b c d : ℕ)
    → IsByte a
    → IsByte b
    → IsByte c
    → IsByte d
    → join32 a b c d ≡ a + 256 * b + 65536 * c + 16777216 * d
unfolding join32
join32-sum a b c d ha hb hc hd = rw (or_byte-sum 8 a b (omega arith)) (
    rw (or_byte-sum 16 (a + b * 2 ^ 8) c (omega arith))
      (rw (or_byte-sum 24 (a + b * 2 ^ 8 + c * 2 ^ 16) d (omega arith)) (omega arith)))

join64-sum :
    (a b c d e f g h : ℕ)
    → IsByte a
    → IsByte b
    → IsByte c
    → IsByte d
    → IsByte e
    → IsByte f
    → IsByte g
    → IsByte h
    → join64 a b c d e f g h
      ≡ a + 2 ^ 8 * b + 2 ^ 16 * c + 2 ^ 24 * d + 2 ^ 32 * e + 2 ^ 40 * f + 2 ^ 48 * g + 2 ^ 56 * h
unfolding join64
join64-sum a b c d e f g h ha hb hc hd he hf hg hh =
    let s2 : ℕ = a + b * 2 ^ 8 in
    let s3 : ℕ = s2 + c * 2 ^ 16 in
    let s4 : ℕ = s3 + d * 2 ^ 24 in
    let s5 : ℕ = s4 + e * 2 ^ 32 in
    let s6 : ℕ = s5 + f * 2 ^ 40 in
    let s7 : ℕ = s6 + g * 2 ^ 48 in
    rw (or_byte-sum 8 a b (omega arith)) (
      rw (or_byte-sum 16 s2 c (omega arith)) (
        rw (or_byte-sum 24 s3 d (omega arith)) (
          rw (or_byte-sum 32 s4 e (omega arith)) (
            rw (or_byte-sum 40 s5 f (omega arith)) (
              rw (or_byte-sum 48 s6 g (omega arith))
                (rw (or_byte-sum 56 s7 h (omega arith)) (omega arith)))))))

in-IsByte : (v k : ℕ) → IsByte (byte_at v k)
in-IsByte v k = omega arith

join32-bytes :
    (v : ℕ) → join32 (byte_at v 0) (byte_at v 8) (byte_at v 16) (byte_at v 24) ≡ v % 2 ^ 32
join32-bytes v =
    rw (join32-sum _ _ _ _ (in-IsByte v 0) (in-IsByte v 8) (in-IsByte v 16) (in-IsByte v 24))
      (omega arith)

join64-bytes :
    (v : ℕ)
    → join64
        (byte_at v 0)
        (byte_at v 8)
        (byte_at v 16)
        (byte_at v 24)
        (byte_at v 32)
        (byte_at v 40)
        (byte_at v 48)
        (byte_at v 56)
      ≡ v % 2 ^ 64
join64-bytes v =
    rw
      (join64-sum _ _ _ _ _ _ _ _ (in-IsByte v 0) (in-IsByte v 8) (in-IsByte v 16) (in-IsByte v 24)
        (in-IsByte v 32) (in-IsByte v 40) (in-IsByte v 48) (in-IsByte v 56))
      (omega arith)

-- A number is read back modulo the width, whatever follows it.
pub decode_fixed32-encode_fixed32 :
    (v : ℕ) (rest : Bytes) → decode_fixed32 (encode_fixed32 v ++ rest) ≡ some (v % 2 ^ 32, rest)
unfolding decode_fixed32 encode_fixed32
decode_fixed32-encode_fixed32 v rest = rw (join32-bytes v)

pub decode_fixed64-encode_fixed64 :
    (v : ℕ) (rest : Bytes) → decode_fixed64 (encode_fixed64 v ++ rest) ≡ some (v % 2 ^ 64, rest)
unfolding decode_fixed64 encode_fixed64
decode_fixed64-encode_fixed64 v rest = rw (join64-bytes v)

pub decode_fixed32_word :
    (v : ℕ) (rest : Bytes) → IsU32 v → decode_fixed32 (encode_fixed32 v ++ rest) ≡ some (v, rest)
decode_fixed32_word v rest h = ground (arith, decode_fixed32-encode_fixed32 v rest)

pub decode_fixed64_word :
    (v : ℕ) (rest : Bytes) → IsU64 v → decode_fixed64 (encode_fixed64 v ++ rest) ≡ some (v, rest)
decode_fixed64_word v rest h = ground (arith, decode_fixed64-encode_fixed64 v rest)

enough : (s rest : Bytes) → leb (length s) (length (s ++ rest)) ≡ true
enough s rest = ground (arith, length-append s rest)

-- A string shorter than 4 GB is read back and appended to what the result held.
pub decode_str-encode_str :
    (result s rest : Bytes)
    → IsU32 (length s)
    → decode_str result (encode_str s ++ rest) ≡ some (result ++ s, rest)
unfolding decode_str encode_str
decode_str-encode_str result s rest h = rw (
  append_assoc,
  decode_fixed32_word (length s) (s ++ rest) h,
  enough s rest,
  take-length-append s rest,
  drop-length-append s rest,
)

pub decode_slice-encode_str :
    (s rest : Bytes) → IsU32 (length s) → decode_slice (encode_str s ++ rest) ≡ some (s, rest)
unfolding decode_slice encode_str
decode_slice-encode_str s rest h = rw (
  append_assoc,
  decode_fixed32_word (length s) (s ++ rest) h,
  enough s rest,
  take-length-append s rest,
  drop-length-append s rest,
)

pub decode_bool-encode_bool :
    (b : Bool) (rest : Bytes) → decode_bool (encode_bool b ++ rest) ≡ some (b, rest)
unfolding decode_bool encode_bool
decode_bool-encode_bool true rest = refl
decode_bool-encode_bool false rest = refl

-- The sizes that the encoders return.
pub length-encode_fixed32 : (v : ℕ) → length (encode_fixed32 v) ≡ 4
unfolding encode_fixed32
length-encode_fixed32 v = refl

pub length-encode_fixed64 : (v : ℕ) → length (encode_fixed64 v) ≡ 8
unfolding encode_fixed64
length-encode_fixed64 v = refl

pub length-encode_str : (s : Bytes) → length (encode_str s) ≡ 4 + length s
unfolding encode_str
length-encode_str s =
    omega (arith, length-append (encode_fixed32 (length s)) s, length-encode_fixed32 (length s))
