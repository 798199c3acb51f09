-- ===== src/Coding/Varint/RoundTrip.antt =====
-- The decoders of integers of variable length against their encoders.
use bl_nova_lsm.Common.{
  ℕ, zero, suc, ◌+◌, ◌*◌, ◌/◌, ◌%◌, ◌^◌, ◌≤◌, ◌<◌, ◌≡◌, refl, ap, bit_and, bit_or, some, [], ◌∷◌,
  ◌++◌, arith, length, append_assoc, leb, true, sym, ◌∙◌, take-length-append, drop-length-append,
  length-append,
}
use bl_nova_lsm.Common.Bits.{set_top_bit, low_bits, top_bit, bit_or_fields, zero-bit_or}
use bl_nova_lsm.Coding.{Bytes, IsU32, IsU64}
use bl_nova_lsm.Coding.Varint.{
  encode_varint32, encode_varint64_loop, encode_varint64, varint_length_loop, varint_length,
  get_varint_loop, get_varint32, get_varint64, put_length_prefixed_slice, get_length_prefixed_slice,
}
use native.Mathlib.Nat.{div-add-mod, mod-eq_of_lt}
use native.Mathlib.Numerals.{towards_suc}

shift_seven : (s : ℕ) → 2 ^ (s + 7) ≡ 128 * 2 ^ s
shift_seven s = simp towards_suc (omega arith)

-- The group that a round stores, and what is left, both moved by `s` bits.
split_group : (v s : ℕ) → v * 2 ^ s ≡ v % 128 * 2 ^ s + v / 128 * 2 ^ (s + 7)
split_group v s = omega (
  arith,
  ap (λ (t : ℕ). t * 2 ^ s) (div-add-mod v 128),
  ap (λ (t : ℕ). v / 128 * t) (shift_seven s),
)

-- A group is added to the result without overlap or loss.
add_group :
    (width shift result g : ℕ)
    → result < 2 ^ shift
    → g * 2 ^ shift < 2 ^ width
    → bit_or result (g * 2 ^ shift % 2 ^ width) ≡ result + g * 2 ^ shift
add_group width shift result g hr hg = rw (mod-eq_of_lt hg) (bit_or_fields shift result g hr)

final_byte :
    (last width v shift result : ℕ) (rest : Bytes)
    → v < 128
    → shift ≤ last
    → result < 2 ^ shift
    → v * 2 ^ shift < 2 ^ width
    → get_varint_loop last width shift result ((v % 256) ∷ rest)
      ≡ some (result + v * 2 ^ shift, rest)
unfolding get_varint_loop
final_byte last width v shift result rest hv hs hr fits =
    ground (arith, top_bit (v % 256), add_group width shift result v)

inner_byte :
    (last width v shift result : ℕ) (rest : Bytes)
    → shift ≤ last
    → result < 2 ^ shift
    → v % 128 * 2 ^ shift < 2 ^ width
    → get_varint_loop last width shift result ((bit_or v 128 % 256) ∷ rest)
      ≡ get_varint_loop last width (shift + 7) (result + v % 128 * 2 ^ shift) rest
unfolding get_varint_loop
inner_byte last width v shift result rest hs hr fits =
    let low : bit_and (v % 128 + 128) 127 ≡ v % 128 = omega (arith, low_bits (v % 128 + 128)) in
    let high : bit_and (v % 128 + 128) 128 ≡ 128 = omega (arith, top_bit (v % 128 + 128)) in
    let allowed : leb shift last ≡ true = ground arith in
    rw (set_top_bit v, allowed, high, low, add_group width shift result (v % 128) hr fits)

group_bound : (v s r : ℕ) → r < 2 ^ s → r + v % 128 * 2 ^ s < 2 ^ (s + 7)
group_bound v s r h = let small : v % 128 ≤ 127 = omega arith in rw (shift_seven s) (grind arith)

-- `v` is what is still to be read; it counts from bit `shift` on.
get_varint_loop-encode :
    (last width k v shift result : ℕ) (rest : Bytes)
    → v < 128 ^ suc k
    → shift + 7 * k ≤ last
    → result < 2 ^ shift
    → v * 2 ^ shift < 2 ^ width
    → get_varint_loop last width shift result (encode_varint64_loop k v ++ rest)
      ≡ some (result + v * 2 ^ shift, rest)
unfolding encode_varint64_loop
get_varint_loop-encode last width zero v shift result rest hv hs hr fits =
    final_byte last width v shift result rest (omega arith) (omega arith) hr fits
get_varint_loop-encode last width (suc k) v shift result rest hv hs hr fits = ground (
  arith,
  final_byte last width v shift result rest,
  split_group v shift,
  group_bound v shift result hr,
  inner_byte last width v shift result (encode_varint64_loop k (v / 128) ++ rest),
  get_varint_loop-encode last width k (v / 128) (shift + 7) (result + v % 128 * 2 ^ shift) rest
      (omega arith),
)

-- More rounds than the number has groups change nothing.
loop_fuel :
    (k m v : ℕ) → k ≤ m → v < 128 ^ suc k → encode_varint64_loop m v ≡ encode_varint64_loop k v
unfolding encode_varint64_loop
loop_fuel zero zero v l h = refl
loop_fuel zero (suc m) v l h = ground arith
loop_fuel (suc k) zero v l h = absurd (omega arith)
loop_fuel (suc k) (suc m) v l h =
    ground (arith, loop_fuel k m (v / 128) (omega arith) (omega arith))

varint64_loop : (v : ℕ) → IsU64 v → encode_varint64 v ≡ encode_varint64_loop 9 v
unfolding encode_varint64
varint64_loop v h = refl

-- GetVarint64 reads back what EncodeVarint64 wrote, and leaves what follows it.
pub get_varint64-encode_varint64 :
    (v : ℕ) (rest : Bytes) → IsU64 v → get_varint64 (encode_varint64 v ++ rest) ≡ some (v, rest)
unfolding get_varint64
get_varint64-encode_varint64 v rest h =
    rw (varint64_loop v h) (ground (arith, get_varint_loop-encode 63 64 9 v 0 0 rest))

shift_groups :
    (v : ℕ)
    → (v / 2 ^ 7 / 2 ^ 7 ≡ v / 2 ^ 14)
      × (v / 2 ^ 14 / 2 ^ 7 ≡ v / 2 ^ 21)
      × (v / 2 ^ 21 / 2 ^ 7 ≡ v / 2 ^ 28)
shift_groups v = omega arith

-- The unrolled branches of EncodeVarint32 write what four rounds of the loop write.
encode_varint32-loop : (v : ℕ) → IsU32 v → encode_varint32 v ≡ encode_varint64_loop 4 v
unfolding encode_varint32 encode_varint64_loop
encode_varint32-loop v h =
    rw ((shift_groups v).0, (shift_groups v).1, (shift_groups v).2) (ground arith)

-- EncodeVarint32 and EncodeVarint64 agree on every uint32.
pub encode_varint32-eq-encode_varint64 : (v : ℕ) → IsU32 v → encode_varint32 v ≡ encode_varint64 v
unfolding encode_varint64
encode_varint32-eq-encode_varint64 v h =
    encode_varint32-loop v h ∙ sym (loop_fuel 4 9 v (omega arith) (omega arith))

fallback32 :
    (v : ℕ) (rest : Bytes)
    → IsU32 v
    → get_varint_loop 28 32 0 0 (encode_varint32 v ++ rest) ≡ some (v, rest)
fallback32 v rest h =
    rw (encode_varint32-loop v h) (ground (arith, get_varint_loop-encode 28 32 4 v 0 0 rest))

abbrev HeadIsByte : Bytes → Type 0
HeadIsByte [] = Unit {0}
HeadIsByte (b ∷ rest) = b < 256

-- The short cut of GetVarint32Ptr agrees with its loop.
get_varint32-loop :
    (input : Bytes) → HeadIsByte input → get_varint32 input ≡ get_varint_loop 28 32 0 0 input
unfolding get_varint32 get_varint_loop
get_varint32-loop [] h = refl
get_varint32-loop (b ∷ rest) h = ground (arith, zero-bit_or b)

HeadIsByte-loop : (k v : ℕ) (rest : Bytes) → HeadIsByte (encode_varint64_loop k v ++ rest)
unfolding encode_varint64_loop
HeadIsByte-loop zero v rest = omega arith
HeadIsByte-loop (suc k) v rest = ground arith

HeadIsByte-varint32 : (v : ℕ) (rest : Bytes) → IsU32 v → HeadIsByte (encode_varint32 v ++ rest)
HeadIsByte-varint32 v rest h = rw (encode_varint32-loop v h) (HeadIsByte-loop 4 v rest)

-- GetVarint32 reads back what EncodeVarint32 wrote, and leaves what follows it.
pub get_varint32-encode_varint32 :
    (v : ℕ) (rest : Bytes) → IsU32 v → get_varint32 (encode_varint32 v ++ rest) ≡ some (v, rest)
get_varint32-encode_varint32 v rest h =
    get_varint32-loop _ (HeadIsByte-varint32 v rest h) ∙ fallback32 v rest h

put_empty :
    (value : Bytes) → put_length_prefixed_slice [] value ≡ encode_varint32 (length value) ++ value
unfolding put_length_prefixed_slice
put_empty value = refl

-- GetLengthPrefixedSlice reads back the slice that PutLengthPrefixedSlice appended.
pub get_length_prefixed_slice-put :
    (value rest : Bytes)
    → IsU32 (length value)
    → get_length_prefixed_slice (put_length_prefixed_slice [] value ++ rest) ≡ some (value, rest)
unfolding get_length_prefixed_slice
get_length_prefixed_slice-put value rest h =
    let fits : leb (length value) (length (value ++ rest)) ≡ true =
      ground (arith, length-append value rest) in
    rw (
      put_empty value,
      append_assoc,
      get_varint32-encode_varint32 (length value) (value ++ rest) h,
      fits,
      take-length-append value rest,
      drop-length-append value rest,
    )

varint_length_loop-length :
    (k v len : ℕ) → varint_length_loop k v len + 1 ≡ len + length (encode_varint64_loop k v)
unfolding varint_length_loop encode_varint64_loop
varint_length_loop-length zero v len = omega arith
varint_length_loop-length (suc k) v len =
    ground (arith, varint_length_loop-length k (v / 128) (len + 1))

-- VarintLength is the number of bytes that EncodeVarint64 writes.
pub varint_length-length : (v : ℕ) → IsU64 v → varint_length v ≡ length (encode_varint64 v)
unfolding varint_length encode_varint64
varint_length-length v h = omega (arith, varint_length_loop-length 9 v 1)
