-- ===== src/Memtables/Examples.antt =====
-- A memtable that a reader asked for and that is flushed into the level-0 file 7; a partition; and
-- three versions of a key.
use bl_nova_lsm.Common.{
  ℕ, ◌≡◌, refl, true, false, not, ◌&&◌, ◌==◌, some, List, [], ◌∷◌, length, arith,
}
use bl_nova_lsm.Common.Sets.{insert, erase, insert_all}
use bl_nova_lsm.Coding.{Bytes, IsU32}
use bl_nova_lsm.Keys.{ycsb_key_comparator}
use bl_nova_lsm.InternalKey.{type_value, new_lookup_key}
use bl_nova_lsm.InternalKey.Packed.{IsSequence}
use bl_nova_lsm.Memtables.{
  AtomicMemTable, new_atomic_memtable, set_memtable, make_immutable, set_flushed, ref_memtable,
  unref_memtable, is_present,
}
use bl_nova_lsm.Memtables.Life.{Shared, Reach, here, next, closes, asks, flushes, start, granted}
use bl_nova_lsm.Memtables.Release.{present_iff_needed, unref_memtable-succeeds, can_be_released}
use bl_nova_lsm.Memtables.Partition.{Generations, remove_memtable}
use bl_nova_lsm.Memtables.Partition.Recorded.{Removed, remove_memtable-Removed}
use bl_nova_lsm.Memtables.Entries.{Lookup, get_entry}
use bl_nova_lsm.Memtables.Entries.Encoded.{Entry, IsEntry}
use bl_nova_lsm.Memtables.Entries.Table.{add_all}
use bl_nova_lsm.Memtables.Entries.Visible.{Answers}
use bl_nova_lsm.Memtables.Entries.Get.{get_entry-newest}

abbrev held_memtable : AtomicMemTable
held_memtable = record new_atomic_memtable {
  is_immutable = true;
  is_flushed = true;
  generation_id = 2;
  memtable_id = 5;
  last_version_id = 3;
  l0_file_numbers = 7 ∷ [];
  memtable = some record { memtable_id = 5; refs = 1 };
}

abbrev held_state : Shared
held_state = record { table = held_memtable; held = 1 }

abbrev filled_memtable : AtomicMemTable
filled_memtable = record (start 2 5).table { is_immutable = true }

abbrev asked_state : Shared
asked_state = granted (ref_memtable filled_memtable) 0

filled_state-Reach : Reach (start 2 5) (record { table = filled_memtable; held = 0 })
unfolding make_immutable set_memtable
filled_state-Reach = next here (closes refl)

asked_state-Reach : Reach (start 2 5) asked_state
asked_state-Reach = next filled_state-Reach (asks refl)

held_state-Reach : Reach (start 2 5) held_state
unfolding set_memtable set_flushed ref_memtable insert_all insert
held_state-Reach = next asked_state-Reach (flushes (7 ∷ []) 3 held_memtable refl refl)

present_iff_needed_example :
    is_present (some (record { memtable_id = 5; refs = 1 })) ≡ not (true && 1 == 0)
present_iff_needed_example = present_iff_needed 2 5 held_state held_state-Reach

unref_memtable-succeeds_example :
    (is_present held_memtable.memtable ≡ true)
    × ((a : AtomicMemTable) × (unref_memtable 1 held_memtable ≡ some a))
unref_memtable-succeeds_example =
    unref_memtable-succeeds 2 5 held_state 1 held_state-Reach (omega arith) (omega arith)

can_be_released_example : (t : Shared) × Reach held_state t × (is_present t.table.memtable ≡ false)
can_be_released_example = can_be_released 2 5 held_state held_state-Reach

abbrev partition : Generations
partition = (1, 4 ∷ []) ∷ (3, 5 ∷ 6 ∷ []) ∷ []

partition_removed : remove_memtable 1 4 partition ≡ some ((3, 5 ∷ 6 ∷ []) ∷ [])
unfolding remove_memtable erase
partition_removed = refl

remove_memtable-Removed_example : Removed 1 4 partition ((3, 5 ∷ 6 ∷ []) ∷ [])
remove_memtable-Removed_example =
    remove_memtable-Removed 1 4 partition ((3, 5 ∷ 6 ∷ []) ∷ [])
      ((tt, tt), refl, (omega arith, tt), (((omega arith, tt), (tt, tt)), refl, tt, tt))
      partition_removed

abbrev version : ℕ → Bytes → Entry
version sequence value = record {
  key = record { user_key = b'4' ∷ []; sequence = sequence; type = type_value };
  value = value;
}

abbrev versions : List Entry
versions = version 3 (b'x' ∷ []) ∷ version 9 (b'z' ∷ []) ∷ version 5 (b'y' ∷ []) ∷ []

version-IsEntry :
    (sequence : ℕ) (value : Bytes)
    → IsSequence sequence
    → IsU32 (length value)
    → IsEntry (version sequence value)
version-IsEntry sequence value h k = record {
  in_sequence = h;
  key_fits = omega arith;
  value_fits = k;
}

get_entry-newest_example :
    (table : List Bytes) × (add_all ycsb_key_comparator versions [] ≡ some table)
    × ((r : Lookup) × (get_entry ycsb_key_comparator (new_lookup_key (b'4' ∷ []) 7) table ≡ some r)
        × Answers ycsb_key_comparator (b'4' ∷ []) 7 versions r)
get_entry-newest_example =
    get_entry-newest ycsb_key_comparator versions (b'4' ∷ []) 7
      (
        version-IsEntry 3 (b'x' ∷ []) (omega arith) (omega arith),
        (
          version-IsEntry 9 (b'z' ∷ []) (omega arith) (omega arith),
          (version-IsEntry 5 (b'y' ∷ []) (omega arith) (omega arith), tt),
        ),
      )
      (omega arith) (omega arith)
