-- ===== src/RangeIndex.antt =====
-- db/range_index.h and db/range_index.cpp: for each range of keys, the memtables and level-0
-- SSTables that a scan must read. A std::set is an ascending list; an unordered_map is the list of
-- its entries in the order of its iteration.
pub mod Tables
pub mod Edits
pub mod References
mod Examples
use bl_nova_lsm.Common.{
  ℕ, zero, suc, ◌+◌, ◌-◌, Bool, true, false, leb, Option, none, some, List, [], ◌∷◌, ◌++◌, map,
  ◌==◌, if◌then◌else◌, ◌>>=◌, ◌>>◌, guard, length, get_elem?, set_elem,
}
use bl_nova_lsm.Common.Sets.{insert, erase, contains, insert_all}
use bl_nova_lsm.Coding.{Bytes, encode_fixed32, decode_fixed32, encode_fixed64, decode_fixed64}
use bl_nova_lsm.Coding.Lists.{encode_all, decode_all}

pub record RangeTables : Type 0 where
  pub memtable_ids : List ℕ
  pub l0_sstable_ids : List ℕ

-- RangeTables::Encode
unfoldable pub encode_tables : RangeTables → Bytes
encode_tables t =
    encode_fixed32 (length t.memtable_ids)
    ++ (encode_fixed32 (length t.l0_sstable_ids)
        ++ (encode_all encode_fixed32 t.memtable_ids ++ encode_all encode_fixed64 t.l0_sstable_ids))

-- RangeTables::Decode into a new object; none is an assertion that fails.
unfoldable pub decode_tables : Bytes → Option (RangeTables × Bytes)
decode_tables buf = do
  (num_mids, buf1) ← decode_fixed32 buf
  (num_l0s, buf2) ← decode_fixed32 buf1
  (mids, buf3) ← decode_all decode_fixed32 num_mids buf2
  (l0s, rest) ← decode_all decode_fixed64 num_l0s buf3
  some (record { memtable_ids = insert_all [] mids; l0_sstable_ids = insert_all [] l0s }, rest)

-- The reference count of a RangeIndex and its mark of deletion.
pub record Refs : Type 0 where
  pub refs : ℕ
  pub is_deleted : Bool

-- RangeIndex::Ref
unfoldable pub ref : Refs → Bool × Refs
ref r = if r.is_deleted then (false, r) else (true, record r { refs = r.refs + 1 })

-- RangeIndex::UnRef; none is the assertion that there is a reference.
unfoldable pub unref : Refs → Option Refs
unref r = do
  guard (leb 1 r.refs)
  some record { refs = r.refs - 1; is_deleted = if r.refs - 1 == 0 then true else r.is_deleted }

-- The parts of a RangeIndexVersionEdit that the loop over the tables uses.
pub record TablesEdit : Type 0 where
  pub replace_memtables : List (ℕ × ℕ)
  pub replace_l0_sstables : List (ℕ × List ℕ)
  pub removed_l0_sstables : List ℕ
  pub removed_memtables : List ℕ

unfoldable pub erase_all : List ℕ → List ℕ → List ℕ
erase_all [] s = s
erase_all (x ∷ xs) s = erase_all xs (erase x s)

-- `if (memtable_ids.erase(first) == 1) l0_sstable_ids.insert(second)`
unfoldable pub replace_memtable : ℕ × ℕ → RangeTables → RangeTables
replace_memtable (memtable, sstable) t =
    if contains t.memtable_ids memtable
    then record {
      memtable_ids = erase memtable t.memtable_ids;
      l0_sstable_ids = insert sstable t.l0_sstable_ids;
    }
    else t

unfoldable pub replace_memtables_in : List (ℕ × ℕ) → RangeTables → RangeTables
unfolding replace_memtable
replace_memtables_in [] t = t
replace_memtables_in (p ∷ ps) t = replace_memtables_in ps (replace_memtable p t)

-- `if (l0_sstable_ids.erase(first) == 1) l0_sstable_ids.insert(second.begin(), second.end())`
unfoldable pub replace_sstable : ℕ × List ℕ → List ℕ → List ℕ
replace_sstable (sstable, new) l0s =
    if contains l0s sstable then insert_all (erase sstable l0s) new else l0s

unfoldable pub replace_sstables_in : List (ℕ × List ℕ) → List ℕ → List ℕ
unfolding replace_sstable
replace_sstables_in [] l0s = l0s
replace_sstables_in (p ∷ ps) l0s = replace_sstables_in ps (replace_sstable p l0s)

-- A round of the loop over the tables in AppendNewVersion.
unfoldable pub edit_tables : TablesEdit → RangeTables → RangeTables
unfolding erase_all replace_memtables_in replace_sstables_in
edit_tables edit t =
    let t1 : RangeTables = record {
      memtable_ids = erase_all edit.removed_memtables t.memtable_ids;
      l0_sstable_ids = erase_all edit.removed_l0_sstables t.l0_sstable_ids;
    } in
    let t2 = replace_memtables_in edit.replace_memtables t1 in
    record t2 { l0_sstable_ids = replace_sstables_in edit.replace_l0_sstables t2.l0_sstable_ids }
