-- ===== src/RangeIndex/Examples.antt =====
-- The tables of a range with two memtables, one of which is flushed to SSTable 9.
use bl_nova_lsm.Common.{◌≡◌, refl, true, false, some, [], ◌∷◌, ◌==◌, ltb, arith}
use bl_nova_lsm.Common.Sets.{contains}
use bl_nova_lsm.RangeIndex.{RangeTables, TablesEdit, edit_tables, Refs, ref, unref}
use bl_nova_lsm.RangeIndex.Tables.{TablesFit}
use bl_nova_lsm.RangeIndex.Edits.{StillRead, edit_tables-StillRead}
use bl_nova_lsm.RangeIndex.References.{new_version, created, released, deleted_iff_unused}

abbrev two_memtables : RangeTables
two_memtables = record { memtable_ids = 3 ∷ 5 ∷ []; l0_sstable_ids = 7 ∷ [] }

two_memtables-TablesFit : TablesFit two_memtables
two_memtables-TablesFit = record {
  memtable_count_fits = omega arith;
  sstable_count_fits = omega arith;
  memtables_fit = (omega arith, (omega arith, tt));
  sstables_fit = (omega arith, tt);
  memtables_ascend = ((omega arith, tt), (tt, tt));
  sstables_ascend = (tt, tt);
}

reads_five : contains (3 ∷ 5 ∷ []) 5 ≡ true
unfolding contains
reads_five = refl

abbrev flush_five : TablesEdit
flush_five = record {
  replace_memtables = (5, 9) ∷ [];
  replace_l0_sstables = [];
  removed_l0_sstables = [];
  removed_memtables = 3 ∷ [];
}

keeps_five : contains (3 ∷ []) 5 ≡ false
unfolding contains
keeps_five = refl

edit_tables-StillRead_example : StillRead ((5, 9) ∷ []) (edit_tables flush_five two_memtables) 5
edit_tables-StillRead_example =
    edit_tables-StillRead flush_five two_memtables 5 ((omega arith, tt), (tt, tt)) refl keeps_five
      reads_five

abbrev dropped : Refs
dropped = record { refs = 0; is_deleted = true }

drops : unref new_version ≡ some dropped
unfolding unref
drops = refl

deleted_iff_unused_example : (true ≡ (0 == 0)) × ((ref dropped).0 ≡ ltb 0 0)
deleted_iff_unused_example = deleted_iff_unused dropped (released new_version dropped created drops)
