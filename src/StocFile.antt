-- ===== src/StocFile.antt =====
-- stoc/persistent_stoc_file.h and .cpp: a StoC file, whose blocks are placed in a memory buffer by
-- clients and then appended to a file on disk. `none` is a failed assertion. The kind that
-- ParseFileName tells from a name is a parameter: whether the name is of a table file; none is a name
-- that does not parse. The bytes of the file on disk are the offsets in the buffer that they come from.
pub mod Persist
pub mod Coalesced
pub mod Accounts
pub mod Entries
pub mod Steps
pub mod Flushed
pub mod Reached
mod Examples
use bl_nova_lsm.Common.{
  ℕ, zero, suc, ◌+◌, ◌-◌, ◌%◌, ◌^◌, Bool, true, false, not, ◌&&◌, ◌||◌, Option, none, some, List,
  [], ◌∷◌, ◌++◌, leb, ◌==◌, if◌then◌else◌, ◌>>=◌, ◌>>◌, guard, length,
}
use bl_nova_lsm.Coding.{Bytes}
use bl_nova_lsm.Files.Replication.{FileInternalType, file_data, file_metadata, file_parity}

unfoldable pub same_name : Bytes → Bytes → Bool
same_name [] [] = true
same_name [] (y ∷ ys) = false
same_name (x ∷ xs) [] = false
same_name (x ∷ xs) (y ∷ ys) = x == y && same_name xs ys

pub record AllocatedBuf : Type 0 where
  pub filename : Bytes
  pub offset : ℕ
  pub size : ℕ
  pub written_to_mem : Bool
  pub internal_type : FileInternalType

-- StoCPersistStatus, with the offset and the size of its disk_handle.
pub record PersistStatus : Type 0 where
  pub disk_offset : ℕ
  pub disk_size : ℕ
  pub persisted : Bool

-- BatchWrite, with the offset and the size of its mem_handle.
pub record BatchWrite : Type 0 where
  pub offset : ℕ
  pub size : ℕ
  pub sstable : Bytes
  pub internal_type : FileInternalType

abbrev pub Blocks : Type 0
Blocks = List (Bytes × PersistStatus)

pub record StocFile : Type 0 where
  pub file_block_offset : Blocks
  pub file_meta_block_offset : Blocks
  pub file_parity_block_offset : Blocks
  pub allocated_bufs : List AllocatedBuf
  pub is_full : Bool
  pub sealed : Bool
  pub backing_mem : Option ℕ
  pub current_disk_offset : ℕ
  pub current_mem_offset : ℕ
  pub file_size : ℕ
  pub allocated_mem_size : ℕ
  pub persisting_cnt : ℕ
  pub reading_cnt : ℕ
  pub waiting_to_be_deleted : Bool
  pub deleted : Bool
  pub written_mem_blocks : List BatchWrite
  pub disk : List ℕ

-- StoCPersistentFile::StoCPersistentFile, where the memory manager gives `mem`.
unfoldable pub new_stoc_file : ℕ → ℕ → StocFile
new_stoc_file mem size = record {
  file_block_offset = [];
  file_meta_block_offset = [];
  file_parity_block_offset = [];
  allocated_bufs = [];
  is_full = false;
  sealed = false;
  backing_mem = some mem;
  current_disk_offset = 0;
  current_mem_offset = 0;
  file_size = 0;
  allocated_mem_size = size;
  persisting_cnt = 0;
  reading_cnt = 0;
  waiting_to_be_deleted = false;
  deleted = false;
  written_mem_blocks = [];
  disk = [];
}

unfoldable pub has_block : Blocks → Bytes → Bool
unfolding same_name
has_block [] filename = false
has_block ((name, status) ∷ rest) filename = same_name name filename || has_block rest filename

abbrev pub blocks_of : FileInternalType → StocFile → Blocks
blocks_of file_data f = f.file_block_offset
blocks_of file_metadata f = f.file_meta_block_offset
blocks_of file_parity f = f.file_parity_block_offset

abbrev pub if_data {ℓ} : {A : Type ℓ} → FileInternalType → A → A → A
if_data file_data new old = new
if_data file_metadata new old = old
if_data file_parity new old = old

abbrev pub if_metadata {ℓ} : {A : Type ℓ} → FileInternalType → A → A → A
if_metadata file_data new old = old
if_metadata file_metadata new old = new
if_metadata file_parity new old = old

abbrev pub if_parity {ℓ} : {A : Type ℓ} → FileInternalType → A → A → A
if_parity file_data new old = old
if_parity file_metadata new old = old
if_parity file_parity new old = new

abbrev pub with_blocks : FileInternalType → Blocks → StocFile → StocFile
with_blocks t blocks f = record f {
  file_block_offset = if_data t blocks f.file_block_offset;
  file_meta_block_offset = if_metadata t blocks f.file_meta_block_offset;
  file_parity_block_offset = if_parity t blocks f.file_parity_block_offset;
}

-- Whether the name may not be there yet: data of other files than tables may be written again.
abbrev pub must_be_new : FileInternalType → Bool → Bool
must_be_new file_data is_table = is_table
must_be_new file_metadata is_table = true
must_be_new file_parity is_table = true

-- The assertion that a new block has no entry.
abbrev pub new_block : FileInternalType → Bool → Bytes → StocFile → Bool
new_block t is_table filename f =
    if must_be_new t is_table then not (has_block (blocks_of t f) filename) else true

abbrev pub is_nil {ℓ} : {A : Type ℓ} → List A → Bool
is_nil [] = true
is_nil (x ∷ xs) = false

abbrev pub to_be_sealed : StocFile → Bool
to_be_sealed f = is_nil f.allocated_bufs && (f.is_full && (f.persisting_cnt == 0 && not f.sealed))

-- StoCPersistentFile::Seal, which gives the buffer back to the memory manager.
unfoldable pub seal : StocFile → Option StocFile
seal f =
    if to_be_sealed f
    then (do
      guard (f.current_disk_offset == f.file_size)
      mem ← f.backing_mem
      some record f { sealed = true; backing_mem = none })
    else some f

-- StoCPersistentFile::ForceSeal
unfoldable pub force_seal : StocFile → Option StocFile
unfolding seal
force_seal f = do
  guard (is_nil f.allocated_bufs)
  guard (f.persisting_cnt == 0)
  seal (record f { is_full = true })

-- UINT64_MAX
abbrev pub no_offset : ℕ
no_offset = 2 ^ 64 - 1

-- What AllocateBuf adds, where there is room.
abbrev pub with_buf : Bytes → ℕ → FileInternalType → StocFile → StocFile
with_buf filename size t f = record f {
  current_mem_offset = f.current_mem_offset + size;
  allocated_bufs =
      f.allocated_bufs
      ++ (record {
        filename = filename;
        offset = f.current_mem_offset;
        size = size;
        written_to_mem = false;
        internal_type = t;
      }
          ∷ []);
  file_size = (f.file_size + size) % 2 ^ 32;
}

-- StoCPersistentFile::AllocateBuf
unfoldable pub allocate_buf :
    (Bytes → Option Bool) → Bytes → ℕ → FileInternalType → StocFile → Option (ℕ × StocFile)
unfolding seal
allocate_buf parse filename size t f = do
  guard (leb (f.current_mem_offset + size) f.allocated_mem_size)
  is_table ← parse filename
  (if f.is_full || not (leb (f.current_mem_offset + size) f.allocated_mem_size)
      then (do f' ← seal f; some (no_offset, f'))
      else (do
        guard (not f.sealed)
        guard (new_block t is_table filename f)
        mem ← f.backing_mem
        some (mem + f.current_mem_offset, with_buf filename size t f)))

abbrev pub or_this :
    ℕ → AllocatedBuf → List AllocatedBuf → Option (List AllocatedBuf) → Option (List AllocatedBuf)
or_this relative_off b bs (some bs') = some (b ∷ bs')
or_this relative_off b bs none =
    if b.offset == relative_off then some (record b { written_to_mem = true } ∷ bs) else none

-- The search of MarkOffsetAsWritten, from the last buffer to the first.
unfoldable pub mark_last : ℕ → List AllocatedBuf → Option (List AllocatedBuf)
mark_last relative_off [] = none
mark_last relative_off (b ∷ bs) = or_this relative_off b bs (mark_last relative_off bs)

abbrev pub or_null : Option ℕ → ℕ
or_null none = 0
or_null (some mem) = mem

abbrev pub marked : StocFile → Option (List AllocatedBuf) → Bool × StocFile
marked f none = (false, f)
marked f (some bufs) = (true, record f { allocated_bufs = bufs })

-- StoCPersistentFile::MarkOffsetAsWritten
unfoldable pub mark_offset_as_written : ℕ → StocFile → Bool × StocFile
unfolding mark_last
mark_offset_as_written offset f =
    marked f (mark_last ((offset + 2 ^ 64 - or_null f.backing_mem) % 2 ^ 64) f.allocated_bufs)
