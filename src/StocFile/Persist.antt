-- ===== src/StocFile/Persist.antt =====
-- StoCPersistentFile::Persist and DeleteSSTable of stoc/persistent_stoc_file.cpp. The first part of
-- Persist is under mutex_; the second, under persist_mutex_, is taken as one step too, although it
-- gives mutex_ back before, between and after the appends.
use bl_nova_lsm.Common.{
  ℕ, zero, suc, ◌+◌, ◌-◌, Bool, true, false, not, ◌&&◌, Option, none, some, List, [], ◌∷◌, ◌++◌,
  leb, ◌==◌, if◌then◌else◌, ◌>>=◌, ◌>>◌, guard,
}
use bl_nova_lsm.Coding.{Bytes}
use bl_nova_lsm.Files.Replication.{FileInternalType}
use bl_nova_lsm.StocFile.{
  same_name, AllocatedBuf, PersistStatus, BatchWrite, Blocks, StocFile, has_block, blocks_of,
  with_blocks, new_block, is_nil, seal,
}

-- `StoCPersistStatus &s = blocks[filename]; s = …`
unfoldable pub put_block : Bytes → PersistStatus → Blocks → Blocks
unfolding same_name
put_block filename s [] = (filename, s) ∷ []
put_block filename s ((name, status) ∷ rest) =
    let later = put_block filename s rest in
    if same_name name filename then (name, s) ∷ rest else (name, status) ∷ later

-- A written buffer becomes a block to be persisted.
abbrev pub collect_typed : FileInternalType → AllocatedBuf → StocFile → StocFile
collect_typed t b f =
    let status : PersistStatus = record {
      disk_offset = f.current_disk_offset;
      disk_size = b.size;
      persisted = false;
    } in
    let f' = with_blocks t (put_block b.filename status (blocks_of t f)) f in
    record f' {
      persisting_cnt = f'.persisting_cnt + 1;
      current_disk_offset = f'.current_disk_offset + b.size;
      written_mem_blocks =
          f'.written_mem_blocks
          ++ (record { offset = b.offset; size = b.size; sstable = b.filename; internal_type = t }
              ∷ []);
    }

-- The loop over the allocated buffers; the file has those that were kept.
unfoldable pub collect_bufs : (Bytes → Option Bool) → List AllocatedBuf → StocFile → Option StocFile
unfolding has_block put_block
collect_bufs parse [] f = some f
collect_bufs parse (b ∷ bs) f =
    let kept = collect_bufs parse bs (record f { allocated_bufs = f.allocated_bufs ++ (b ∷ []) }) in
    let collected = collect_bufs parse bs (collect_typed b.internal_type b f) in
    if b.written_to_mem
    then (do
      is_table ← parse b.filename
      guard (new_block b.internal_type is_table b.filename f)
      collected)
    else kept

-- Persist, its first part. The result tells whether the second part follows.
unfoldable pub collect : (Bytes → Option Bool) → StocFile → Option (Bool × StocFile)
unfolding seal collect_bufs
collect parse f = if is_nil f.allocated_bufs then (do f' ← seal f; some (false, f')) else (do
  f' ← collect_bufs parse f.allocated_bufs (record f { allocated_bufs = [] })
  guard (leb f'.current_disk_offset f'.file_size)
  some (true, f'))

-- The ranges of the buffer that the loop of Persist appends: blocks that follow one another in the
-- buffer are appended at once.
unfoldable pub coalesce : ℕ → ℕ → List BatchWrite → List (ℕ × ℕ)
coalesce offset size [] = (offset, size) ∷ []
coalesce offset size (w ∷ ws) =
    let longer = coalesce offset (size + w.size) ws in
    let next = coalesce w.offset w.size ws in
    if offset + size == w.offset then longer else (offset, size) ∷ next

unfoldable pub range_bytes : ℕ → ℕ → List ℕ
range_bytes offset zero = []
range_bytes offset (suc size) = offset ∷ range_bytes (offset + 1) size

unfoldable pub append_ranges : List ℕ → List (ℕ × ℕ) → List ℕ
unfolding range_bytes
append_ranges disk [] = disk
append_ranges disk ((offset, size) ∷ rest) = append_ranges (disk ++ range_bytes offset size) rest

abbrev pub ranges_of : List BatchWrite → List (ℕ × ℕ)
ranges_of [] = []
ranges_of (w ∷ ws) = coalesce w.offset w.size ws

abbrev pub total_size : List (ℕ × ℕ) → ℕ
total_size [] = 0
total_size ((offset, size) ∷ rest) = size + total_size rest

-- `blocks[sstable].persisted = true`, where the block has an entry.
unfoldable pub set_persisted : Bytes → Blocks → Option Blocks
unfolding same_name
set_persisted filename [] = none
set_persisted filename ((name, status) ∷ rest) =
    let later = set_persisted filename rest in
    if same_name name filename
    then some ((name, record status { persisted = true }) ∷ rest)
    else (do r ← later; some ((name, status) ∷ r))

abbrev pub one_persisted : FileInternalType → Blocks → StocFile → StocFile
one_persisted t blocks f =
    let f' = with_blocks t blocks f in record f' { persisting_cnt = f'.persisting_cnt - 1 }

-- The loops that mark the appended blocks.
unfoldable pub mark_persisted : List BatchWrite → StocFile → Option StocFile
unfolding set_persisted
mark_persisted [] f = some f
mark_persisted (w ∷ ws) f = do
  blocks ← set_persisted w.sstable (blocks_of w.internal_type f)
  mark_persisted ws (one_persisted w.internal_type blocks f)

-- Persist, its second part, under persist_mutex_: the bytes that it returns, and the file.
unfoldable pub flush : StocFile → Option (ℕ × StocFile)
unfolding seal coalesce append_ranges mark_persisted
flush f =
    let disk' = append_ranges f.disk (ranges_of f.written_mem_blocks) in
    if is_nil f.written_mem_blocks then (do f' ← seal f; some (0, f')) else (do
      f1 ← mark_persisted f.written_mem_blocks f
      f2 ← seal (record f1 { written_mem_blocks = []; disk = disk' })
      some (total_size (ranges_of f.written_mem_blocks), f2))

unfoldable pub erase_block : Bytes → Blocks → Option Blocks
unfolding same_name
erase_block filename [] = some []
erase_block filename ((name, status) ∷ rest) =
    let later = erase_block filename rest in
    if same_name name filename
    then (do guard status.persisted; some rest)
    else (do r ← later; some ((name, status) ∷ r))

abbrev pub is_unused : StocFile → Bool
is_unused f =
    is_nil f.file_block_offset
    && (is_nil f.file_meta_block_offset
        && (is_nil f.file_parity_block_offset
            && (f.is_full && (is_nil f.allocated_bufs && (f.persisting_cnt == 0 && f.sealed)))))

-- StoCPersistentFile::DeleteSSTable: whether the file on disk is deleted.
unfoldable pub delete_sstable : Bytes → StocFile → Option (Bool × StocFile)
unfolding seal erase_block
delete_sstable filename f = do
  f1 ← seal f
  blocks ← erase_block filename f1.file_block_offset
  metas ← erase_block filename f1.file_meta_block_offset
  parities ← erase_block filename f1.file_parity_block_offset
  (let f2 : StocFile = record f1 {
    file_block_offset = blocks;
    file_meta_block_offset = metas;
    file_parity_block_offset = parities;
  } in
      if is_unused f2
      then if f2.reading_cnt == 0 && not f2.deleted
        then (do
          guard (f2.current_disk_offset == f2.file_size)
          some (true, record f2 { waiting_to_be_deleted = true; deleted = true }))
        else some (false, record f2 { waiting_to_be_deleted = true })
      else some (false, f2))
