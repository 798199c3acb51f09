-- ===== src/Files/RoundTrip.antt =====
-- FileMetaData::Decode against FileMetaData::Encode.
use bl_nova_lsm.Common.{
  ℕ, ◌≡◌, ◌≢◌, refl, some, List, [], ◌∷◌, ◌++◌, append_assoc, length, All, not, ◌==◌, arith, true,
}
use bl_nova_lsm.Common.Sets.{insert, insert_all, insert_all_ascending, IsAscending}
use bl_nova_lsm.Coding.{Bytes, IsU32, IsU64, encode_fixed32, encode_str}
use bl_nova_lsm.Coding.Fixed.{decode_fixed32_word, decode_fixed64_word, decode_slice-encode_str}
use bl_nova_lsm.Coding.Lists.{encode_all, decode_all-encode_all}
use bl_nova_lsm.Files.{
  FileReplicaMetaData, FileMetaData, new_file, encode_replica, decode_replica, encode_file,
  get_internal_key, decode_ids, decode_memtable_ids, decode_replicas, decode_file,
}
use bl_nova_lsm.Files.Handles.{
  HandleFits, ReplicaFits, decode_handle-encode_handle, decode_replica-encode_replica,
}

-- The fields have the widths of their types, the counts and lengths fit 32 bits, and the two keys
-- are there.
pub record FileFits (f : FileMetaData) : Type 0 where
  pub number_fits : IsU64 f.number
  pub file_size_fits : IsU64 f.file_size
  pub converted_fits : IsU64 f.converted_file_size
  pub timestamp_fits : IsU64 f.flush_timestamp
  pub level_fits : IsU32 f.level
  pub smallest_fits : IsU32 (length f.smallest)
  pub smallest_there : length f.smallest ≢ 0
  pub largest_fits : IsU32 (length f.largest)
  pub largest_there : length f.largest ≢ 0
  pub id_count_fits : IsU32 (length f.memtable_ids)
  pub ids_fit : All IsU32 f.memtable_ids
  pub replica_count_fits : IsU32 (length f.block_replica_handles)
  pub replicas_fit : All ReplicaFits f.block_replica_handles
  pub parity_fits : HandleFits f.parity_block_handle

key_back :
    (key rest : Bytes)
    → IsU32 (length key)
    → length key ≢ 0
    → get_internal_key (encode_str key ++ rest) ≡ some (key, rest)
unfolding get_internal_key
key_back key rest h there =
    let nonempty : not (length key == 0) ≡ true = ground arith in
    rw (decode_slice-encode_str key rest h, nonempty)

ids_back :
    (ids s : List ℕ) (rest : Bytes)
    → All IsU32 ids
    → decode_ids (length ids) s (encode_all encode_fixed32 ids ++ rest)
      ≡ some (insert_all s ids, rest)
unfolding decode_ids encode_all insert_all
ids_back [] s rest h = refl
ids_back (x ∷ ids) s rest h = rw (
  append_assoc,
  decode_fixed32_word x (encode_all encode_fixed32 ids ++ rest) h.0,
  ids_back ids (insert x s) rest h.1,
)

memtable_ids_back :
    (ids s : List ℕ) (rest : Bytes)
    → IsU32 (length ids)
    → All IsU32 ids
    → decode_memtable_ids s (encode_fixed32 (length ids) ++ (encode_all encode_fixed32 ids ++ rest))
      ≡ some (insert_all s ids, rest)
unfolding decode_memtable_ids
memtable_ids_back ids s rest h w = rw (decode_fixed32_word (length ids) _ h) (ids_back ids s rest w)

replicas_back :
    (rs before : List FileReplicaMetaData) (rest : Bytes)
    → IsU32 (length rs)
    → All ReplicaFits rs
    → decode_replicas before (encode_fixed32 (length rs) ++ (encode_all encode_replica rs ++ rest))
      ≡ some (before ++ rs, rest)
unfolding decode_replicas
replicas_back rs before rest h w = rw (
  decode_fixed32_word (length rs) _ h,
  decode_all-encode_all encode_replica decode_replica ReplicaFits decode_replica-encode_replica rs
      rest w,
)

-- Decoding into an object that was used before keeps its memtable ids beside those of the message
-- and its replicas before those of the message; every other field is the message's.
pub decode_file-encode_file_into :
    (before f : FileMetaData) (rest : Bytes)
    → FileFits f
    → decode_file before (encode_file f ++ rest)
      ≡ some (
        record f {
          memtable_ids = insert_all before.memtable_ids f.memtable_ids;
          block_replica_handles = before.block_replica_handles ++ f.block_replica_handles;
        },
        rest,
      )
unfolding decode_file encode_file
decode_file-encode_file_into before f rest w = simp (
  append_assoc,
  decode_fixed64_word f.number _ w.number_fits,
  decode_fixed64_word f.file_size _ w.file_size_fits,
  decode_fixed64_word f.converted_file_size _ w.converted_fits,
  key_back f.smallest _ w.smallest_fits w.smallest_there,
  key_back f.largest _ w.largest_fits w.largest_there,
  decode_fixed64_word f.flush_timestamp _ w.timestamp_fits,
  decode_fixed32_word f.level _ w.level_fits,
  memtable_ids_back f.memtable_ids before.memtable_ids _ w.id_count_fits w.ids_fit,
  replicas_back f.block_replica_handles before.block_replica_handles _ w.replica_count_fits
      w.replicas_fit,
  decode_handle-encode_handle f.parity_block_handle rest w.parity_fits,
)

-- Decoding into a new object gives the file back, and leaves what follows it.
pub decode_file-encode_file :
    (f : FileMetaData) (rest : Bytes)
    → FileFits f
    → IsAscending f.memtable_ids
    → decode_file new_file (encode_file f ++ rest) ≡ some (f, rest)
decode_file-encode_file f rest w o =
    rw (decode_file-encode_file_into new_file f rest w, insert_all_ascending f.memtable_ids o)
