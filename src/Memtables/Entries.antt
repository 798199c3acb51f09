-- ===== src/Memtables/Entries.antt =====
-- MemTable::Add and MemTable::Get (db/memtable.cc), on the lowest level of the skip list of
-- db/skiplist.h: the list of the entries in the order of KeyComparator. `none` is a failed assertion or
-- an entry that is no entry of Add.
pub mod Encoded
pub mod Table
pub mod Visible
pub mod Newest
pub mod Get
use Prim.Native.Nat.{Ordering}
use bl_nova_lsm.Common.{
  ℕ, ◌+◌, ◌-◌, ◌%◌, Bool, true, false, Option, none, some, List, [], ◌∷◌, ◌++◌, leb, ◌==◌,
  if◌then◌else◌, ◌>>=◌, ◌>>◌, guard, length, take, drop,
}
use bl_nova_lsm.Coding.{Bytes, encode_fixed64, decode_fixed64}
use bl_nova_lsm.Coding.Varint.{encode_varint32, get_varint32, get_length_prefixed_slice}
use bl_nova_lsm.Keys.{Comparator}
use bl_nova_lsm.InternalKey.{
  ValueType, pack_sequence_and_type, compare_internal, LookupKey, memtable_key, lookup_user_key,
}
use bl_nova_lsm.Levels.{is_lt, is_eq}

-- The entry that MemTable::Add writes into the arena.
unfoldable pub encode_entry : ℕ → ValueType → Bytes → Bytes → Bytes
encode_entry s type key value =
    encode_varint32 (length key + 8)
    ++ (key
        ++ (encode_fixed64 (pack_sequence_and_type s type)
            ++ (encode_varint32 (length value) ++ value)))

-- MemTable::KeyComparator::operator()
unfoldable pub compare_entries : Comparator → Bytes → Bytes → Option Ordering
compare_entries cmp aptr bptr = do
  (a, rest_a) ← get_length_prefixed_slice aptr
  (b, rest_b) ← get_length_prefixed_slice bptr
  compare_internal cmp a b

-- SkipList::Insert on the lowest level: in front of the first entry that is not smaller. The debug
-- builds' assertion that no equal entry is there is left out.
unfoldable pub insert_entry : Comparator → Bytes → List Bytes → Option (List Bytes)
unfolding compare_entries
insert_entry cmp key [] = some (key ∷ [])
insert_entry cmp key (x ∷ xs) =
    let later = insert_entry cmp key xs in
    do
      o ← compare_entries cmp x key
      (if is_lt o then (do rest ← later; some (x ∷ rest)) else some (key ∷ x ∷ xs))

-- MemTable::Add
unfoldable pub add_entry :
    Comparator → ℕ → ValueType → Bytes → Bytes → List Bytes → Option (List Bytes)
unfolding encode_entry insert_entry
add_entry cmp s type key value table = insert_entry cmp (encode_entry s type key value) table

-- SkipList::Iterator::Seek on the lowest level: the first entry that is not smaller than the target.
unfoldable pub seek : Comparator → Bytes → List Bytes → Option (Option Bytes)
unfolding compare_entries
seek cmp target [] = some none
seek cmp target (x ∷ xs) =
    let later = seek cmp target xs in
    do o ← compare_entries cmp x target; (if is_lt o then later else some (some x))

-- What MemTable::Get returns: true with the value, true with the status NotFound, or false.
pub data Lookup : Type 0 where
  found_value : Bytes → Lookup
  found_deletion not_found : Lookup

-- The switch on the type of the tag.
unfoldable pub read_typed : ℕ → Bytes → Option Lookup
read_typed tag rest =
    if tag % 256 == 1
    then (do (v, after) ← get_length_prefixed_slice rest; some (found_value v))
    else if tag % 256 == 0
    then some found_deletion
    else some not_found

-- What MemTable::Get reads of the entry that it finds.
unfoldable pub read_entry : Comparator → Bytes → Bytes → Option Lookup
unfolding read_typed
read_entry cmp user_key entry = do
  (key_length, key_ptr) ← get_varint32 entry
  guard (leb 8 key_length)
  (tag, rest) ← decode_fixed64 (drop (key_length - 8) key_ptr)
  (if is_eq (cmp.order (take (key_length - 8) key_ptr) user_key)
      then read_typed tag rest
      else some not_found)

-- `if (iter.Valid())`
abbrev pub if_valid : Option Bytes → (Bytes → Option Lookup) → Option Lookup
if_valid none read = some not_found
if_valid (some entry) read = read entry

-- MemTable::Get
unfoldable pub get_entry : Comparator → LookupKey → List Bytes → Option Lookup
unfolding seek read_entry
get_entry cmp key table = do
  e ← seek cmp (memtable_key key) table
  if_valid e (read_entry cmp (lookup_user_key key))
