-- ===== src/CompactionRequest.antt =====
-- CompactionRequest (include/leveldb/stoc_client.h, db/dbformat.cc): the work that an LTC sends to a
-- StoC. Files are values; the completion signal and the outputs are not part of the message.
pub mod RoundTrip
mod Examples
use bl_nova_lsm.Common.{ℕ, zero, suc, ◌+◌, Option, none, some, List, [], ◌∷◌, ◌++◌, ◌>>=◌, length}
use bl_nova_lsm.Coding.{
  Bytes, encode_fixed32, decode_fixed32, encode_fixed64, decode_fixed64, encode_str, decode_str,
}
use bl_nova_lsm.Coding.Lists.{encode_all, decode_all}
use bl_nova_lsm.Subrange.{SubRange, encode_for_compaction, decode_for_compaction}
use bl_nova_lsm.Files.{FileMetaData, new_file, encode_file, decode_file}

pub record CompactionRequest : Type 0 where
  pub dbname : Bytes
  pub smallest_snapshot : ℕ
  pub source_level : ℕ
  pub target_level : ℕ
  pub inputs0 : List FileMetaData
  pub inputs1 : List FileMetaData
  pub guides : List FileMetaData
  pub subranges : List SubRange

-- The size of a vector of files, and the files.
unfoldable pub encode_files : List FileMetaData → Bytes
encode_files files = encode_fixed32 (length files) ++ encode_all encode_file files

unfoldable pub decode_files : Bytes → Option (List FileMetaData × Bytes)
decode_files input = do
  (num, rest) ← decode_fixed32 input
  decode_all (decode_file new_file) num rest

-- The loop over the subranges, numbered from `i` on; none is the first range of no ranges.
unfoldable pub encode_subranges_for_compaction : ℕ → List SubRange → Option Bytes
encode_subranges_for_compaction i [] = some []
encode_subranges_for_compaction i (sr ∷ srs) = do
  bytes ← encode_for_compaction i sr
  rest ← encode_subranges_for_compaction (i + 1) srs
  some (bytes ++ rest)

-- The message, given the bytes of its subranges.
unfoldable pub write_request : CompactionRequest → Bytes → Bytes
unfolding encode_files
write_request r subranges =
    encode_str r.dbname
    ++ (encode_fixed64 r.smallest_snapshot
        ++ (encode_fixed32 r.source_level
            ++ (encode_fixed32 r.target_level
                ++ (encode_files r.inputs0
                    ++ (encode_files r.inputs1
                        ++ (encode_files r.guides
                            ++ (encode_fixed32 (length r.subranges) ++ subranges)))))))

-- CompactionRequest::EncodeRequest
unfoldable pub encode_request : CompactionRequest → Option Bytes
unfolding write_request encode_subranges_for_compaction
encode_request r = do
  subranges ← encode_subranges_for_compaction 0 r.subranges
  some (write_request r subranges)

-- CompactionRequest::DecodeRequest into a new request; none is an assertion that fails. What is
-- left of the input is returned too, which the source drops. The source bounds its input by the whole
-- buf_size though it has passed the name of the database; here the bound is what is left.
unfoldable pub decode_request : Bytes → Option (CompactionRequest × Bytes)
unfolding decode_files
decode_request buf = do
  (dbname, input1) ← decode_str [] buf
  (smallest_snapshot, input2) ← decode_fixed64 input1
  (source_level, input3) ← decode_fixed32 input2
  (target_level, input4) ← decode_fixed32 input3
  (inputs0, input5) ← decode_files input4
  (inputs1, input6) ← decode_files input5
  (guides, input7) ← decode_files input6
  (num_subranges, input8) ← decode_fixed32 input7
  (subranges, rest) ← decode_all decode_for_compaction num_subranges input8
  some (
    record {
      dbname = dbname;
      smallest_snapshot = smallest_snapshot;
      source_level = source_level;
      target_level = target_level;
      inputs0 = inputs0;
      inputs1 = inputs1;
      guides = guides;
      subranges = subranges;
    },
    rest,
  )
