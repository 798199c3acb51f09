-- ===== src/Memtables.antt =====
-- db/memtable.h and db/memtable.cc: the life of a memtable in AtomicMemTable, its message for
-- migration, the memtables that a partition counts by generation, and the entries of a memtable.
-- A method that takes the object's lock is one step. `none` is a failed assertion, which stops the
-- process. A MemTable is only reached through its AtomicMemTable here, so it stands in it.
pub mod Life
pub mod Release
pub mod Partition
pub mod Message
pub mod Entries
mod Examples
use bl_nova_lsm.Common.{
  ◌||◌, ℕ, ◌+◌, ◌-◌, Bool, true, false, not, Option, none, some, List, [], ◌∷◌, ◌++◌, ltb, leb,
  ◌==◌, if◌then◌else◌, ◌>>=◌, ◌>>◌, guard, length,
}
use bl_nova_lsm.Common.Sets.{erase, insert_all}
use bl_nova_lsm.Coding.{
  Bytes, encode_fixed32, decode_fixed32, encode_fixed64, decode_fixed64, encode_bool, decode_bool,
}
use bl_nova_lsm.Coding.Lists.{encode_all, decode_all}

-- The counted part of a MemTable; its count starts at zero.
pub record MemTable : Type 0 where
  pub memtable_id : ℕ
  pub refs : ℕ

pub record AtomicMemTable : Type 0 where
  pub is_immutable : Bool
  pub is_flushed : Bool
  pub generation_id : ℕ
  pub is_scheduled_for_flushing : Bool
  pub last_version_id : ℕ
  pub memtable_id : ℕ
  pub l0_file_numbers : List ℕ
  pub memtable : Option MemTable
  pub nentries : ℕ
  pub memtable_size : ℕ
  pub number_of_pending_writes : ℕ

-- The object as VersionSet::VersionSet fills its table with.
abbrev pub new_atomic_memtable : AtomicMemTable
new_atomic_memtable = record {
  is_immutable = false;
  is_flushed = false;
  generation_id = 0;
  is_scheduled_for_flushing = false;
  last_version_id = 0;
  memtable_id = 0;
  l0_file_numbers = [];
  memtable = none;
  nentries = 0;
  memtable_size = 0;
  number_of_pending_writes = 0;
}

-- MemTable::Ref
unfoldable pub ref_table : MemTable → MemTable
ref_table m = record m { refs = m.refs + 1 }

-- MemTable::Unref, whose assertion keeps the count from falling below zero.
unfoldable pub unref_table : ℕ → MemTable → Option MemTable
unref_table n m = do guard (leb n m.refs); some record m { refs = m.refs - n }

-- `if (refs == 0) { delete memtable_; memtable_ = nullptr; }`
abbrev pub unless_unused : MemTable → Option MemTable
unless_unused m = if m.refs == 0 then none else some m

-- AtomicMemTable::SetMemTable
unfoldable pub set_memtable : ℕ → MemTable → AtomicMemTable → AtomicMemTable
unfolding ref_table
set_memtable generation_id mem a = record a {
  l0_file_numbers = [];
  is_flushed = false;
  is_immutable = false;
  is_scheduled_for_flushing = false;
  generation_id = generation_id;
  memtable_id = mem.memtable_id;
  memtable = some (ref_table mem);
}

abbrev pub is_present : Option MemTable → Bool
is_present none = false
is_present (some mem) = true

-- The test of a memtable by a writer that looks for one with room.
unfoldable pub make_immutable : ℕ → AtomicMemTable → Option AtomicMemTable
make_immutable write_buffer_size a = do
  guard (is_present a.memtable)
  guard (not a.is_flushed)
  some (
      if ltb write_buffer_size a.memtable_size || a.is_immutable
      then record a { is_immutable = true }
      else a)

abbrev pub max : ℕ → ℕ → ℕ
max a b = if ltb a b then b else a

abbrev pub is_empty : List ℕ → Bool
is_empty [] = true
is_empty (x ∷ xs) = false

-- AtomicMemTable::SetFlushed
unfoldable pub set_flushed : List ℕ → ℕ → AtomicMemTable → Option AtomicMemTable
unfolding unref_table
set_flushed l0_file_numbers version_id a = do
  guard (not a.is_flushed)
  guard (is_empty a.l0_file_numbers)
  guard a.is_immutable
  mem ← a.memtable
  left ← unref_table 1 mem
  some record a {
    last_version_id = max a.last_version_id version_id;
    l0_file_numbers = insert_all a.l0_file_numbers l0_file_numbers;
    is_flushed = true;
    memtable = unless_unused left;
  }

abbrev pub count : Option MemTable → Option MemTable
count none = none
count (some mem) = some (ref_table mem)

-- AtomicMemTable::RefMemTable; false is the null pointer.
unfoldable pub ref_memtable : AtomicMemTable → Bool × AtomicMemTable
unfolding ref_table
ref_memtable a = (is_present a.memtable, record a { memtable = count a.memtable })

-- AtomicMemTable::Unref
unfoldable pub unref_memtable : ℕ → AtomicMemTable → Option AtomicMemTable
unfolding unref_table
unref_memtable unrefcount a = do
  mem ← a.memtable
  left ← unref_table unrefcount mem
  some record a { memtable = unless_unused left }

unfoldable pub erase_numbers : List ℕ → List ℕ → List ℕ
erase_numbers s [] = s
erase_numbers s (x ∷ xs) = erase_numbers (erase x s) xs

-- AtomicMemTable::UpdateL0Files, with the two sets of the edit.
unfoldable pub update_l0_files : ℕ → List ℕ → List ℕ → AtomicMemTable → Option AtomicMemTable
unfolding erase_numbers
update_l0_files version_id add_fns remove_fns a = do
  guard a.is_immutable
  guard a.is_flushed
  some record a {
    last_version_id = max a.last_version_id version_id;
    l0_file_numbers = erase_numbers (insert_all a.l0_file_numbers add_fns) remove_fns;
  }

-- AtomicMemTable::Encode
unfoldable pub encode_memtable : AtomicMemTable → Bytes
encode_memtable a =
    encode_bool a.is_immutable
    ++ (encode_bool a.is_flushed
        ++ (encode_fixed32 a.last_version_id
            ++ (encode_fixed32 a.memtable_id
                ++ (encode_fixed32 a.nentries
                    ++ (encode_fixed32 a.memtable_size
                        ++ (encode_fixed32 (length a.l0_file_numbers)
                            ++ encode_all encode_fixed64 a.l0_file_numbers))))))

-- `if (!is_flushed_ && !memtable_) memtable_ = new MemTable(…)`, and whether it was there.
abbrev pub memtable_or_new : Bool → ℕ → Option MemTable → Bool × Option MemTable
memtable_or_new true memtable_id m = (true, m)
memtable_or_new false memtable_id (some m) = (true, some m)
memtable_or_new false memtable_id none =
    (false, some record { memtable_id = memtable_id; refs = 0 })

-- AtomicMemTable::Decode: the result, the object, and what is left of the message.
unfoldable pub decode_memtable : Bytes → AtomicMemTable → Option (Bool × AtomicMemTable × Bytes)
decode_memtable buf a = do
  (is_immutable, buf1) ← decode_bool buf
  (is_flushed, buf2) ← decode_bool buf1
  (last_version_id, buf3) ← decode_fixed32 buf2
  (memtable_id, buf4) ← decode_fixed32 buf3
  (nentries, buf5) ← decode_fixed32 buf4
  (memtable_size, buf6) ← decode_fixed32 buf5
  (size, buf7) ← decode_fixed32 buf6
  (l0s, rest) ← decode_all decode_fixed64 size buf7
  (let made = memtable_or_new is_flushed memtable_id a.memtable in
      some (
        made.0,
        record a {
          is_immutable = is_immutable;
          is_flushed = is_flushed;
          last_version_id = last_version_id;
          memtable_id = memtable_id;
          nentries = nentries;
          memtable_size = memtable_size;
          l0_file_numbers = insert_all a.l0_file_numbers l0s;
          memtable = made.1;
        },
        rest,
      ))
