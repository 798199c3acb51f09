-- ===== src/Files/Handles.antt =====
-- The decoders of block handles and replicas against their encoders.
use bl_nova_lsm.Common.{
  ◌≡◌, refl, true, some, List, ◌++◌, append_assoc, length, All, leb, arith, length-append,
}
use bl_nova_lsm.Coding.{Bytes, IsU32, IsU64, encode_fixed32, encode_fixed64}
use bl_nova_lsm.Coding.Fixed.{decode_fixed32_word, decode_fixed64_word}
use bl_nova_lsm.Coding.Lists.{encode_all, decode_all, decode_all-encode_all}
use bl_nova_lsm.Files.{
  StocBlockHandle, FileReplicaMetaData, handle_size, encode_handle, decode_handle, decode_handles,
  encode_replica, decode_replica,
}

-- The fields have the widths of their types.
pub record HandleFits (h : StocBlockHandle) : Type 0 where
  pub server_id_fits : IsU32 h.server_id
  pub stoc_file_id_fits : IsU32 h.stoc_file_id
  pub offset_fits : IsU64 h.offset
  pub size_fits : IsU32 h.size

pub record ReplicaFits (r : FileReplicaMetaData) : Type 0 where
  pub meta_fits : HandleFits r.meta_block_handle
  pub count_fits : IsU32 (length r.data_block_group_handles)
  pub blocks_fit : All HandleFits r.data_block_group_handles

pub length-encode_handle : (h : StocBlockHandle) → length (encode_handle h) ≡ handle_size
unfolding encode_handle encode_fixed32 encode_fixed64
length-encode_handle h = refl

enough :
    (h : StocBlockHandle) (rest : Bytes) → leb handle_size (length (encode_handle h ++ rest)) ≡ true
enough h rest = ground (arith, length-append (encode_handle h) rest, length-encode_handle h)

pub decode_handle-encode_handle :
    (h : StocBlockHandle) (rest : Bytes)
    → HandleFits h
    → decode_handle (encode_handle h ++ rest) ≡ some (h, rest)
unfolding decode_handle
decode_handle-encode_handle h rest w = rw (enough h rest) (
    unfold encode_handle in
    simp (
      append_assoc,
      decode_fixed32_word h.server_id _ w.server_id_fits,
      decode_fixed32_word h.stoc_file_id _ w.stoc_file_id_fits,
      decode_fixed64_word h.offset _ w.offset_fits,
      decode_fixed32_word h.size _ w.size_fits,
    ))

handles_back :
    (hs : List StocBlockHandle) (rest : Bytes)
    → All HandleFits hs
    → decode_all decode_handle (length hs) (encode_all encode_handle hs ++ rest) ≡ some (hs, rest)
handles_back hs rest w =
    decode_all-encode_all encode_handle decode_handle HandleFits decode_handle-encode_handle hs rest
      w

pub decode_replica-encode_replica :
    (r : FileReplicaMetaData) (rest : Bytes)
    → ReplicaFits r
    → decode_replica (encode_replica r ++ rest) ≡ some (r, rest)
unfolding decode_replica encode_replica decode_handles
decode_replica-encode_replica r rest w = simp (
  append_assoc,
  decode_handle-encode_handle r.meta_block_handle _ w.meta_fits,
  decode_fixed32_word (length r.data_block_group_handles) _ w.count_fits,
  handles_back r.data_block_group_handles rest w.blocks_fit,
)
