-- ===== src/RangeIndex/Tables.antt =====
-- RangeTables::Decode against RangeTables::Encode.
use bl_nova_lsm.Common.{◌≡◌, some, ◌++◌, append_assoc, length, All}
use bl_nova_lsm.Common.Sets.{insert_all_ascending, IsAscending}
use bl_nova_lsm.Coding.{
  Bytes, IsU32, IsU64, encode_fixed32, decode_fixed32, encode_fixed64, decode_fixed64,
}
use bl_nova_lsm.Coding.Fixed.{decode_fixed32_word, decode_fixed64_word}
use bl_nova_lsm.Coding.Lists.{decode_all-encode_all}
use bl_nova_lsm.RangeIndex.{RangeTables, encode_tables, decode_tables}

pub record TablesFit (t : RangeTables) : Type 0 where
  pub memtable_count_fits : IsU32 (length t.memtable_ids)
  pub sstable_count_fits : IsU32 (length t.l0_sstable_ids)
  pub memtables_fit : All IsU32 t.memtable_ids
  pub sstables_fit : All IsU64 t.l0_sstable_ids
  pub memtables_ascend : IsAscending t.memtable_ids
  pub sstables_ascend : IsAscending t.l0_sstable_ids

-- The tables of a range, ascending and of numbers and counts that fit their widths, are read back from
-- what Encode wrote, and what follows is left.
pub decode_tables-encode_tables :
    (t : RangeTables) (rest : Bytes)
    → TablesFit t
    → decode_tables (encode_tables t ++ rest) ≡ some (t, rest)
unfolding decode_tables encode_tables
decode_tables-encode_tables t rest w = simp (
  append_assoc,
  decode_fixed32_word (length t.memtable_ids) _ w.memtable_count_fits,
  decode_fixed32_word (length t.l0_sstable_ids) _ w.sstable_count_fits,
  decode_all-encode_all encode_fixed32 decode_fixed32 IsU32 decode_fixed32_word t.memtable_ids _
      w.memtables_fit,
  decode_all-encode_all encode_fixed64 decode_fixed64 IsU64 decode_fixed64_word t.l0_sstable_ids _
      w.sstables_fit,
  insert_all_ascending t.memtable_ids w.memtables_ascend,
  insert_all_ascending t.l0_sstable_ids w.sstables_ascend,
)
