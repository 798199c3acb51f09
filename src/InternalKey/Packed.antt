-- ===== src/InternalKey/Packed.antt =====
-- The number of an internal key, its parsing and its place in a lookup key.
use bl_nova_lsm.Common.{
  ℕ, ◌+◌, ◌-◌, ◌*◌, ◌/◌, ◌%◌, ◌^◌, ◌≤◌, ◌<◌, ◌≡◌, refl, ap, bit_or, true, some, [], ◌++◌,
  append-nil, leb, length, arith, length-append, take-length-append, drop-length-append,
}
use mathlib.Core.Path.{◌∙◌}
use bl_nova_lsm.Common.Bits.{bit_or_fields}
use bl_nova_lsm.Coding.{Bytes, IsU32, IsU64, encode_fixed64}
use bl_nova_lsm.Coding.Fixed.{decode_fixed64_word, length-encode_fixed64}
use bl_nova_lsm.Coding.Varint.{
  encode_varint32, put_length_prefixed_slice, get_length_prefixed_slice,
}
use bl_nova_lsm.Coding.Varint.RoundTrip.{get_length_prefixed_slice-put}
use bl_nova_lsm.InternalKey.{
  ValueType, type_deletion, type_value, type_number, type_of, value_type_for_seek,
  ParsedInternalKey, pack_sequence_and_type, append_internal_key, number_of, extract_user_key,
  parse_internal_key, new_lookup_key, memtable_key, internal_key, lookup_user_key,
}

-- The greatest sequence number is kMaxSequenceNumber.
abbrev pub IsSequence : ℕ → Type 0
IsSequence seq = seq < 2 ^ 56

pub type_number-le : (t : ValueType) → type_number t ≤ 1
type_number-le type_deletion = omega arith
type_number-le type_value = omega arith

pub packed :
    (seq : ℕ) (t : ValueType)
    → IsSequence seq
    → pack_sequence_and_type seq t ≡ type_number t + seq * 256
unfolding pack_sequence_and_type
packed seq t h =
    let fits : seq * 2 ^ 8 % 2 ^ 64 ≡ seq * 2 ^ 8 = omega arith in
    ap (bit_or (type_number t)) fits
    ∙ bit_or_fields 8 (type_number t) seq (omega (arith, type_number-le t))

pub packed-IsU64 : (seq : ℕ) (t : ValueType) → IsSequence seq → IsU64 (pack_sequence_and_type seq t)
packed-IsU64 seq t h = omega (arith, packed seq t h, type_number-le t)

module _ (user : Bytes) (num : ℕ) where
  abbrev whole_key : Bytes
  whole_key = user ++ encode_fixed64 num

  key_length : length whole_key - 8 ≡ length user
  key_length = omega (arith, length-append user (encode_fixed64 num), length-encode_fixed64 num)

  long_enough : leb 8 (length whole_key) ≡ true
  long_enough = ground (arith, length-append user (encode_fixed64 num), length-encode_fixed64 num)

  pub number_of_key : IsU64 num → number_of whole_key ≡ some num
  unfolding number_of
  number_of_key h =
      rw
        (
          long_enough,
          key_length,
          drop-length-append user (encode_fixed64 num),
          ← append-nil (encode_fixed64 num),
          decode_fixed64_word num [] h,
        )
        refl

  pub user_key_of : extract_user_key whole_key ≡ some user
  unfolding extract_user_key
  user_key_of = rw (long_enough, key_length, take-length-append user (encode_fixed64 num)) refl

type_back : (t : ValueType) (seq : ℕ) → type_of ((type_number t + seq * 256) % 256) ≡ some t
type_back type_deletion seq =
    let zero_type : (0 + seq * 256) % 256 ≡ 0 = omega arith in ap type_of zero_type
type_back type_value seq =
    let one_type : (1 + seq * 256) % 256 ≡ 1 = omega arith in ap type_of one_type

-- ParseInternalKey reads back what AppendInternalKey wrote, up to the greatest sequence number.
pub parse_internal_key-append_internal_key :
    (key : ParsedInternalKey)
    → IsSequence key.sequence
    → parse_internal_key (append_internal_key [] key) ≡ some key
unfolding parse_internal_key append_internal_key
parse_internal_key-append_internal_key key h =
    let num = pack_sequence_and_type key.sequence key.type in
    let number : (type_number key.type + key.sequence * 256) / 2 ^ 8 ≡ key.sequence =
      omega (arith, type_number-le key.type) in
    rw
      (
        number_of_key key.user_key num (packed-IsU64 key.sequence key.type h),
        key_length key.user_key num,
        take-length-append key.user_key (encode_fixed64 num),
        packed key.sequence key.type h,
        type_back key.type key.sequence,
        number,
      )
      refl

module _ (user : Bytes) (s : ℕ) where
  abbrev tagged : Bytes
  tagged = user ++ encode_fixed64 (pack_sequence_and_type s value_type_for_seek)

  abbrev klength : Bytes
  klength = encode_varint32 (length user + 8)

  tagged-length : length tagged ≡ length user + 8
  tagged-length = omega (
    arith,
    length-append user (encode_fixed64 (pack_sequence_and_type s value_type_for_seek)),
    length-encode_fixed64 (pack_sequence_and_type s value_type_for_seek),
  )

  pub internal_key_lem : internal_key (new_lookup_key user s) ≡ tagged
  unfolding new_lookup_key
  internal_key_lem = drop-length-append klength tagged

  memtable_key_lem :
      memtable_key (new_lookup_key user s) ≡ put_length_prefixed_slice [] tagged ++ []
  unfolding new_lookup_key put_length_prefixed_slice
  memtable_key_lem = rw (append-nil, tagged-length) refl

  pub lookup_user_key_lem : lookup_user_key (new_lookup_key user s) ≡ user
  unfolding new_lookup_key
  lookup_user_key_lem =
      let size : length (klength ++ tagged) - length klength - 8 ≡ length user =
        omega (arith, length-append klength tagged, tagged-length) in
      rw
        (
          size,
          drop-length-append klength tagged,
          take-length-append user (encode_fixed64 (pack_sequence_and_type s value_type_for_seek)),
        )
        refl

-- For a user key that is 8 bytes shorter than 4 GB at least and a sequence number up to the greatest,
-- the memtable key of a LookupKey is a length-prefixed slice, which holds its internal key; that
-- key parses to the user key, the snapshot's sequence number and the type to seek with, and the user
-- key is a slice of it.
pub new_lookup_key_lem :
    (user_key : Bytes) (s : ℕ)
    → IsU32 (length user_key + 8)
    → IsSequence s
    → (get_length_prefixed_slice (memtable_key (new_lookup_key user_key s))
        ≡ some (internal_key (new_lookup_key user_key s), []))
      × (parse_internal_key (internal_key (new_lookup_key user_key s))
          ≡ some record { user_key = user_key; sequence = s; type = value_type_for_seek })
      × (lookup_user_key (new_lookup_key user_key s) ≡ user_key)
unfolding append_internal_key
new_lookup_key_lem user_key s h k = (
  rw (internal_key_lem user_key s, memtable_key_lem user_key s)
      (get_length_prefixed_slice-put (tagged user_key s) []
        (omega (arith, tagged-length user_key s))),
  rw (internal_key_lem user_key s) (
      parse_internal_key-append_internal_key
        record { user_key = user_key; sequence = s; type = value_type_for_seek } k),
  lookup_user_key_lem user_key s,
)
