-- ===== src/Files.antt =====
-- The metadata of SSTables that are scattered over StoCs: StoCBlockHandle (include/leveldb/
-- db_types.h, stoc/persistent_stoc_file.cpp), FileMetaData and ReplicationPair (db/dbformat.cc).
-- `none` is the result false of a decoder. What neither a message nor a decoder touches (refs,
-- allowed_seeks, compaction_status) is left out of the record.
pub mod Handles
pub mod RoundTrip
pub mod Replication
mod Examples
use bl_nova_lsm.Common.{
  ℕ, zero, suc, Bool, true, false, not, Option, none, some, List, [], ◌∷◌, ◌++◌, leb, ◌==◌,
  if◌then◌else◌, ◌>>=◌, ◌>>◌, guard, length, get_elem?,
}
use bl_nova_lsm.Common.Sets.{insert, contains}
use bl_nova_lsm.Coding.{
  Bytes, encode_fixed32, decode_fixed32, encode_fixed64, decode_fixed64, encode_str, decode_slice,
}
use bl_nova_lsm.Coding.Lists.{encode_all, decode_all}

pub record StocBlockHandle : Type 0 where
  pub server_id : ℕ
  pub stoc_file_id : ℕ
  pub offset : ℕ
  pub size : ℕ

-- StoCBlockHandle::HandleSize
abbrev pub handle_size : ℕ
handle_size = 20

-- StoCBlockHandle::EncodeHandle
unfoldable pub encode_handle : StocBlockHandle → Bytes
encode_handle h =
    encode_fixed32 h.server_id
    ++ (encode_fixed32 h.stoc_file_id ++ (encode_fixed64 h.offset ++ encode_fixed32 h.size))

-- StoCBlockHandle::DecodeHandle: the size is tested once, then the fields are read.
unfoldable pub decode_handle : Bytes → Option (StocBlockHandle × Bytes)
decode_handle input = do
  guard (leb handle_size (length input))
  (server_id, input1) ← decode_fixed32 input
  (stoc_file_id, input2) ← decode_fixed32 input1
  (offset, input3) ← decode_fixed64 input2
  (size, rest) ← decode_fixed32 input3
  some (
    record { server_id = server_id; stoc_file_id = stoc_file_id; offset = offset; size = size },
    rest,
  )

-- StoCBlockHandle::DecodeHandles, into an empty vector.
unfoldable pub decode_handles : Bytes → Option (List StocBlockHandle × Bytes)
decode_handles input = do (size, rest) ← decode_fixed32 input; decode_all decode_handle size rest

pub record FileReplicaMetaData : Type 0 where
  pub meta_block_handle : StocBlockHandle
  pub data_block_group_handles : List StocBlockHandle

-- One round of the loop over the replicas in FileMetaData::Encode.
unfoldable pub encode_replica : FileReplicaMetaData → Bytes
encode_replica replica =
    encode_handle replica.meta_block_handle
    ++ (encode_fixed32 (length replica.data_block_group_handles)
        ++ encode_all encode_handle replica.data_block_group_handles)

-- One round of the loop in FileMetaData::DecodeReplicas.
unfoldable pub decode_replica : Bytes → Option (FileReplicaMetaData × Bytes)
decode_replica input = do
  (meta, input1) ← decode_handle input
  (blocks, rest) ← decode_handles input1
  some (record { meta_block_handle = meta; data_block_group_handles = blocks }, rest)

-- An InternalKey is the string that it wraps.
pub record FileMetaData : Type 0 where
  pub memtable_ids : List ℕ
  pub number : ℕ
  pub file_size : ℕ
  pub converted_file_size : ℕ
  pub flush_timestamp : ℕ
  pub level : ℕ
  pub smallest : Bytes
  pub largest : Bytes
  pub block_replica_handles : List FileReplicaMetaData
  pub parity_block_handle : StocBlockHandle

-- `FileMetaData f;`
abbrev pub new_handle : StocBlockHandle
new_handle = record { server_id = 0; stoc_file_id = 0; offset = 0; size = 0 }

abbrev pub new_file : FileMetaData
new_file = record {
  memtable_ids = [];
  number = 0;
  file_size = 0;
  converted_file_size = 0;
  flush_timestamp = 0;
  level = 0;
  smallest = [];
  largest = [];
  block_replica_handles = [];
  parity_block_handle = new_handle;
}

-- FileMetaData::Encode
unfoldable pub encode_file : FileMetaData → Bytes
encode_file f =
    encode_fixed64 f.number
    ++ (encode_fixed64 f.file_size
        ++ (encode_fixed64 f.converted_file_size
            ++ (encode_str f.smallest
                ++ (encode_str f.largest
                    ++ (encode_fixed64 f.flush_timestamp
                        ++ (encode_fixed32 f.level
                            ++ (encode_fixed32 (length f.memtable_ids)
                                ++ (encode_all encode_fixed32 f.memtable_ids
                                    ++ (encode_fixed32 (length f.block_replica_handles)
                                        ++ (encode_all encode_replica f.block_replica_handles
                                            ++ encode_handle f.parity_block_handle))))))))))

-- GetInternalKey with `copy` false: DecodeFrom assigns the string and refuses an empty one.
unfoldable pub get_internal_key : Bytes → Option (Bytes × Bytes)
get_internal_key input = do
  (str, rest) ← decode_slice input
  guard (not (length str == 0))
  some (str, rest)

-- The loop of FileMetaData::DecodeMemTableIds inserts into the set that the object has.
unfoldable pub decode_ids : ℕ → List ℕ → Bytes → Option (List ℕ × Bytes)
decode_ids zero ids input = some (ids, input)
decode_ids (suc n) ids input = do
  (mid, rest) ← decode_fixed32 input
  decode_ids n (insert mid ids) rest

-- FileMetaData::DecodeMemTableIds
unfoldable pub decode_memtable_ids : List ℕ → Bytes → Option (List ℕ × Bytes)
unfolding decode_ids
decode_memtable_ids ids input = do
  (num_ids, rest) ← decode_fixed32 input
  decode_ids num_ids ids rest

-- FileMetaData::DecodeReplicas pushes back onto the vector that the object has.
unfoldable pub decode_replicas :
    List FileReplicaMetaData → Bytes → Option (List FileReplicaMetaData × Bytes)
decode_replicas replicas input = do
  (num_replicas, rest) ← decode_fixed32 input
  (more, rest') ← decode_all decode_replica num_replicas rest
  some (replicas ++ more, rest')

-- FileMetaData::Decode into the object `f`.
unfoldable pub decode_file : FileMetaData → Bytes → Option (FileMetaData × Bytes)
decode_file f input = do
  (number, input1) ← decode_fixed64 input
  (file_size, input2) ← decode_fixed64 input1
  (converted_file_size, input3) ← decode_fixed64 input2
  (smallest, input4) ← get_internal_key input3
  (largest, input5) ← get_internal_key input4
  (flush_timestamp, input6) ← decode_fixed64 input5
  (level, input7) ← decode_fixed32 input6
  (memtable_ids, input8) ← decode_memtable_ids f.memtable_ids input7
  (replicas, input9) ← decode_replicas f.block_replica_handles input8
  (parity, rest) ← decode_handle input9
  some (
    record {
      memtable_ids = memtable_ids;
      number = number;
      file_size = file_size;
      converted_file_size = converted_file_size;
      flush_timestamp = flush_timestamp;
      level = level;
      smallest = smallest;
      largest = largest;
      block_replica_handles = replicas;
      parity_block_handle = parity;
    },
    rest,
  )

-- The loop of FileMetaData::SelectReplica; `servers` is the set of the available StoCs.
unfoldable pub first_available : List ℕ → ℕ → List FileReplicaMetaData → Option ℕ
first_available servers i [] = none
first_available servers i (replica ∷ replicas) =
    let later = first_available servers (suc i) replicas in
    if contains servers replica.meta_block_handle.server_id then some i else later

-- FileMetaData::SelectReplica; none is the assertion that a replica was found.
unfoldable pub select_replica : List ℕ → FileMetaData → Option ℕ
unfolding first_available
select_replica servers f =
    if length f.block_replica_handles == 1
    then some 0
    else first_available servers 0 f.block_replica_handles
