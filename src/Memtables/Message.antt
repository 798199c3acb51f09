-- ===== src/Memtables/Message.antt =====
-- AtomicMemTable::Decode against AtomicMemTable::Encode.
use bl_nova_lsm.Common.{none, length, All}
use bl_nova_lsm.Common.Sets.{IsAscending}
use bl_nova_lsm.Coding.{IsU32, IsU64}
use bl_nova_lsm.Memtables.{AtomicMemTable, new_atomic_memtable, memtable_or_new}

pub record MemtableFits (a : AtomicMemTable) : Type 0 where
  pub version_fits : IsU32 a.last_version_id
  pub id_fits : IsU32 a.memtable_id
  pub nentries_fits : IsU32 a.nentries
  pub size_fits : IsU32 a.memtable_size
  pub count_fits : IsU32 (length a.l0_file_numbers)
  pub numbers_fit : All IsU64 a.l0_file_numbers
  pub numbers_ascend : IsAscending a.l0_file_numbers

-- What the receiver has of the sender's object: the rest is new, and the memtable is made anew unless
-- it was flushed.
abbrev pub received : AtomicMemTable → AtomicMemTable
received a = record new_atomic_memtable {
  is_immutable = a.is_immutable;
  is_flushed = a.is_flushed;
  last_version_id = a.last_version_id;
  memtable_id = a.memtable_id;
  nentries = a.nentries;
  memtable_size = a.memtable_size;
  l0_file_numbers = a.l0_file_numbers;
  memtable = (memtable_or_new a.is_flushed a.memtable_id none).1;
}
