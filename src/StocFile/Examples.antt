-- ===== src/StocFile/Examples.antt =====
-- A StoC file of 64 bytes with two blocks, of which the first two were written and collected.
use bl_nova_lsm.Common.{ℕ, ◌≡◌, refl, Bool, true, false, Option, some, List, [], ◌∷◌, ◌++◌, arith}
use bl_nova_lsm.Coding.{Bytes}
use bl_nova_lsm.Files.Replication.{file_data}
use bl_nova_lsm.StocFile.{
  AllocatedBuf, StocFile, new_stoc_file, allocate_buf, mark_offset_as_written, has_block,
}
use bl_nova_lsm.StocFile.Persist.{collect, flush}
use bl_nova_lsm.StocFile.Coalesced.{total_blocks, block_bytes}
use bl_nova_lsm.StocFile.Accounts.{IsAccounted}
use bl_nova_lsm.StocFile.Reached.{
  Reach, here, next, allocates, marks, collects, stoc_file-IsAccounted, flush-appends,
}

abbrev parse : Bytes → Option Bool
parse name = some true

abbrev buf : Bytes → ℕ → Bool → AllocatedBuf
buf name offset written = record {
  filename = name;
  offset = offset;
  size = 8;
  written_to_mem = written;
  internal_type = file_data;
}

abbrev with_bufs : List AllocatedBuf → ℕ → StocFile
with_bufs bufs size = record (new_stoc_file 100 64) {
  allocated_bufs = bufs;
  current_mem_offset = size;
  file_size = size;
}

first-Reach : Reach parse (new_stoc_file 100 64) (with_bufs (buf (b'a' ∷ []) 0 false ∷ []) 8)
unfolding allocate_buf new_stoc_file has_block
first-Reach = next here (allocates (b'a' ∷ []) 8 file_data 100 refl)

second-Reach :
    Reach parse
      (new_stoc_file 100 64)
      (with_bufs (buf (b'a' ∷ []) 0 false ∷ buf (b'b' ∷ []) 8 false ∷ []) 16)
unfolding allocate_buf new_stoc_file has_block
second-Reach = next first-Reach (allocates (b'b' ∷ []) 8 file_data 108 refl)

marked-Reach :
    Reach parse
      (new_stoc_file 100 64)
      (with_bufs (buf (b'a' ∷ []) 0 true ∷ buf (b'b' ∷ []) 8 false ∷ []) 16)
unfolding mark_offset_as_written new_stoc_file
marked-Reach = next second-Reach (marks 100 refl)

abbrev waiting_file : StocFile
waiting_file = record (with_bufs (buf (b'b' ∷ []) 8 false ∷ []) 16) {
  current_disk_offset = 8;
  persisting_cnt = 1;
  file_block_offset =
      (b'a' ∷ [], record { disk_offset = 0; disk_size = 8; persisted = false }) ∷ [];
  written_mem_blocks =
      record { offset = 0; size = 8; sstable = b'a' ∷ []; internal_type = file_data } ∷ [];
}

waiting_file-Reach : Reach parse (new_stoc_file 100 64) waiting_file
unfolding collect new_stoc_file
waiting_file-Reach = next marked-Reach (collects true refl)

stoc_file-IsAccounted_example : IsAccounted waiting_file
stoc_file-IsAccounted_example =
    stoc_file-IsAccounted parse 100 64 waiting_file (omega arith) waiting_file-Reach

flush-appends_example :
    (bytes : ℕ) × (f' : StocFile) × (flush waiting_file ≡ some (bytes, f'))
    × (f'.disk ≡ waiting_file.disk ++ block_bytes waiting_file.written_mem_blocks)
    × (bytes ≡ total_blocks waiting_file.written_mem_blocks)
    × (f'.written_mem_blocks ≡ [])
flush-appends_example = flush-appends parse 100 64 waiting_file (omega arith) waiting_file-Reach
