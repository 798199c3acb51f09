-- ===== src/Files/Replication.antt =====
-- ReplicationPair (db/dbformat.cc): the request to copy a StoC file to another StoC.
use bl_nova_lsm.Common.{
  ℕ, ◌≡◌, refl, Option, none, some, [], ◌∷◌, ◌++◌, ◌==◌, if◌then◌else◌, ◌>>=◌, append_assoc,
}
use bl_nova_lsm.Coding.{
  Bytes, IsU32, IsU64, encode_fixed32, decode_fixed32, encode_fixed64, decode_fixed64,
}
use bl_nova_lsm.Coding.Fixed.{decode_fixed32_word, decode_fixed64_word}

pub data FileInternalType : Type 0 where
  file_metadata file_data file_parity : FileInternalType

-- The character that stands for the type in memory and in messages.
unfoldable pub type_char : FileInternalType → ℕ
type_char file_metadata = b'm'
type_char file_data = b'd'
type_char file_parity = b'p'

pub record ReplicationPair : Type 0 where
  pub source_stoc_file_id : ℕ
  pub source_file_size : ℕ
  pub dest_stoc_id : ℕ
  pub sstable_file_number : ℕ
  pub replica_id : ℕ
  pub internal_type : FileInternalType
  pub dest_stoc_file_id : ℕ

-- ReplicationPair::Encode
unfoldable pub encode_pair : ReplicationPair → Bytes
encode_pair p =
    encode_fixed32 p.source_stoc_file_id
    ++ ((type_char p.internal_type ∷ [])
        ++ (encode_fixed32 p.source_file_size
            ++ (encode_fixed32 p.dest_stoc_id
                ++ (encode_fixed64 p.sstable_file_number
                    ++ (encode_fixed32 p.replica_id ++ encode_fixed32 p.dest_stoc_file_id)))))

-- DecodeInternalFileType; on an empty slice the source reads past its end, here `none`.
unfoldable pub decode_internal_file_type : Bytes → Option (FileInternalType × Bytes)
decode_internal_file_type [] = none
decode_internal_file_type (c ∷ rest) =
    if c == b'm'
    then some (file_metadata, rest)
    else if c == b'd'
    then some (file_data, rest)
    else if c == b'p'
    then some (file_parity, rest)
    else none

-- ReplicationPair::Decode
unfoldable pub decode_pair : Bytes → Option (ReplicationPair × Bytes)
decode_pair input = do
  (source_stoc_file_id, input1) ← decode_fixed32 input
  (internal_type, input2) ← decode_internal_file_type input1
  (source_file_size, input3) ← decode_fixed32 input2
  (dest_stoc_id, input4) ← decode_fixed32 input3
  (sstable_file_number, input5) ← decode_fixed64 input4
  (replica_id, input6) ← decode_fixed32 input5
  (dest_stoc_file_id, rest) ← decode_fixed32 input6
  some (
    record {
      source_stoc_file_id = source_stoc_file_id;
      source_file_size = source_file_size;
      dest_stoc_id = dest_stoc_id;
      sstable_file_number = sstable_file_number;
      replica_id = replica_id;
      internal_type = internal_type;
      dest_stoc_file_id = dest_stoc_file_id;
    },
    rest,
  )

-- The fields have the widths of their types.
pub record PairFits (p : ReplicationPair) : Type 0 where
  pub source_fits : IsU32 p.source_stoc_file_id
  pub size_fits : IsU32 p.source_file_size
  pub dest_fits : IsU32 p.dest_stoc_id
  pub number_fits : IsU64 p.sstable_file_number
  pub replica_fits : IsU32 p.replica_id
  pub dest_file_fits : IsU32 p.dest_stoc_file_id

type_back :
    (t : FileInternalType) (rest : Bytes)
    → decode_internal_file_type ((type_char t ∷ []) ++ rest) ≡ some (t, rest)
unfolding decode_internal_file_type type_char
type_back file_metadata rest = refl
type_back file_data rest = refl
type_back file_parity rest = refl

-- A replication request is read back, and what follows it is left.
pub decode_pair-encode_pair :
    (p : ReplicationPair) (rest : Bytes)
    → PairFits p
    → decode_pair (encode_pair p ++ rest) ≡ some (p, rest)
unfolding decode_pair encode_pair
decode_pair-encode_pair p rest w = simp (
  append_assoc,
  decode_fixed32_word p.source_stoc_file_id _ w.source_fits,
  type_back p.internal_type,
  decode_fixed32_word p.source_file_size _ w.size_fits,
  decode_fixed32_word p.dest_stoc_id _ w.dest_fits,
  decode_fixed64_word p.sstable_file_number _ w.number_fits,
  decode_fixed32_word p.replica_id _ w.replica_fits,
  decode_fixed32_word p.dest_stoc_file_id rest w.dest_file_fits,
)
