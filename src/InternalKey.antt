-- ===== src/InternalKey.antt =====
-- Internal keys (db/dbformat.h, db/dbformat.cc and include/leveldb/db_types.h): a user key with the
-- sequence number and the type of its version, and the order that puts newer versions first.
pub mod Packed
pub mod Compare
pub mod Seen
mod Examples
use Prim.Native.Nat.{Ordering}
use bl_nova_lsm.Common.{
  ℕ, zero, suc, ◌+◌, ◌-◌, ◌*◌, ◌/◌, ◌%◌, ◌^◌, bit_or, Option, none, some, List, [], ◌∷◌, ◌++◌, ltb,
  leb, if◌then◌else◌, ◌>>=◌, ◌>>◌, guard, length, take, drop,
}
use bl_nova_lsm.Coding.{Bytes, encode_fixed64, decode_fixed64}
use bl_nova_lsm.Coding.Varint.{encode_varint32}
use bl_nova_lsm.Keys.{Comparator}

-- enum ValueType
pub data ValueType : Type 0 where
  type_deletion type_value : ValueType

abbrev pub type_number : ValueType → ℕ
type_number type_deletion = 0
type_number type_value = 1

-- kValueTypeForSeek
abbrev pub value_type_for_seek : ValueType
value_type_for_seek = type_value

pub record ParsedInternalKey : Type 0 where
  pub user_key : Bytes
  pub sequence : ℕ
  pub type : ValueType

-- `(seq << 8) | t`, with the operands of the symmetric `|` exchanged.
unfoldable pub pack_sequence_and_type : ℕ → ValueType → ℕ
pack_sequence_and_type seq t = bit_or (type_number t) (seq * 2 ^ 8 % 2 ^ 64)

-- AppendInternalKey
unfoldable pub append_internal_key : Bytes → ParsedInternalKey → Bytes
unfolding pack_sequence_and_type
append_internal_key result key =
    result ++ (key.user_key ++ encode_fixed64 (pack_sequence_and_type key.sequence key.type))

-- `DecodeFixed64(key.data() + key.size() - 8)`; none is a key shorter than 8 bytes.
unfoldable pub number_of : Bytes → Option ℕ
number_of internal_key = do
  guard (leb 8 (length internal_key))
  (num, rest) ← decode_fixed64 (drop (length internal_key - 8) internal_key)
  some num

-- ExtractUserKey, whose assertion asks for 8 bytes.
unfoldable pub extract_user_key : Bytes → Option Bytes
extract_user_key internal_key = do
  guard (leb 8 (length internal_key))
  some (take (length internal_key - 8) internal_key)

-- The types that the last byte stands for: `c <= kTypeValue`.
abbrev pub type_of : ℕ → Option ValueType
type_of zero = some type_deletion
type_of (suc zero) = some type_value
type_of (suc (suc c)) = none

-- ParseInternalKey; none is the result false.
unfoldable pub parse_internal_key : Bytes → Option ParsedInternalKey
unfolding number_of
parse_internal_key internal_key = do
  num ← number_of internal_key
  type ← type_of (num % 256)
  some record {
    user_key = take (length internal_key - 8) internal_key;
    sequence = num / 2 ^ 8;
    type = type;
  }

-- The ties of InternalKeyComparator::Compare: the greater number comes first.
abbrev pub by_number : ℕ → ℕ → Ordering
by_number anum bnum =
    if ltb bnum anum then Ordering.lt else if ltb anum bnum then Ordering.gt else Ordering.eq

abbrev pub unless_equal : Ordering → Option Ordering → Option Ordering
unless_equal Ordering.lt ties = some Ordering.lt
unless_equal Ordering.gt ties = some Ordering.gt
unless_equal Ordering.eq ties = ties

-- InternalKeyComparator::Compare
unfoldable pub compare_internal : Comparator → Bytes → Bytes → Option Ordering
unfolding extract_user_key number_of
compare_internal user_comparator akey bkey = do
  a ← extract_user_key akey
  b ← extract_user_key bkey
  unless_equal (user_comparator.order a b)
      (do anum ← number_of akey; bnum ← number_of bkey; some (by_number anum bnum))

-- LookupKey::LookupKey: the bytes from start_ to end_, and where kstart_ is.
pub record LookupKey : Type 0 where
  pub space : Bytes
  pub kstart : ℕ

unfoldable pub new_lookup_key : Bytes → ℕ → LookupKey
unfolding pack_sequence_and_type
new_lookup_key user_key s =
    let klength = encode_varint32 (length user_key + 8) in
    record {
      space =
          klength ++ (user_key ++ encode_fixed64 (pack_sequence_and_type s value_type_for_seek));
      kstart = length klength;
    }

-- LookupKey::memtable_key, internal_key and user_key
abbrev pub memtable_key : LookupKey → Bytes
memtable_key k = k.space

abbrev pub internal_key : LookupKey → Bytes
internal_key k = drop k.kstart k.space

abbrev pub lookup_user_key : LookupKey → Bytes
lookup_user_key k = take (length k.space - k.kstart - 8) (drop k.kstart k.space)
