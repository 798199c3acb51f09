-- ===== src/LookupIndex.antt =====
-- db/lookup_index.h and db/lookup_index.cpp: the memtable that has the newest version of a key, by
-- the key's hash. The array has `size_` slots of 32 bits; `none` is an index out of range, also of
-- an index of no slots, or an assertion.
pub mod Slots
mod Examples
use bl_nova_lsm.Common.{
  ℕ, zero, suc, ◌+◌, ◌%◌, ◌^◌, Option, none, some, List, [], ◌∷◌, ◌++◌, ◌==◌, if◌then◌else◌, ◌>>=◌,
  length, get_elem?, set_elem,
}
use bl_nova_lsm.Coding.{Bytes, encode_fixed32, decode_fixed32}
use bl_nova_lsm.Coding.Lists.{encode_all}

-- LookupIndex: its slots, of which it has `size_`.
abbrev pub LookupIndex : Type 0
LookupIndex = List ℕ

-- LookupIndex::LookupIndex; `new TableLocation[size_]` makes slots of 0.
unfoldable pub new_lookup_index : ℕ → LookupIndex
new_lookup_index zero = []
new_lookup_index (suc size) = 0 ∷ new_lookup_index size

-- `hash % size_`
abbrev pub slot : LookupIndex → ℕ → ℕ
slot index hash = hash % length index

-- LookupIndex::Lookup
unfoldable pub lookup : ℕ → LookupIndex → Option ℕ
lookup hash index = get_elem? index (slot index hash)

-- LookupIndex::Insert; the id has 32 bits.
unfoldable pub insert_id : ℕ → ℕ → LookupIndex → Option LookupIndex
insert_id hash memtableid index = do
  old ← get_elem? index (slot index hash)
  some (set_elem index (slot index hash) memtableid)

-- LookupIndex::CAS
unfoldable pub cas : ℕ → ℕ → ℕ → LookupIndex → Option LookupIndex
cas hash current_memtableid new_memtableid index = do
  old ← get_elem? index (slot index hash)
  some
      (if old == current_memtableid then set_elem index (slot index hash) new_memtableid else index)

-- LookupIndex::Encode
unfoldable pub encode_index : LookupIndex → Bytes
encode_index index = encode_fixed32 (length index) ++ encode_all encode_fixed32 index

-- The loop of LookupIndex::Decode over `n` slots from number `i` on.
unfoldable pub decode_slots : ℕ → ℕ → LookupIndex → Bytes → Option (LookupIndex × Bytes)
decode_slots zero i index buf = some (index, buf)
decode_slots (suc n) i index buf = do
  (id, rest) ← decode_fixed32 buf
  old ← get_elem? index i
  decode_slots n (i + 1) (set_elem index i id) rest

-- LookupIndex::Decode into the slots of `index`.
unfoldable pub decode_index : LookupIndex → Bytes → Option (LookupIndex × Bytes)
unfolding decode_slots
decode_index index buf = do (size, rest) ← decode_fixed32 buf; decode_slots size 0 index rest
