-- ===== src/Levels/Sample.antt =====
-- Two files of a level under the integer comparator.
use bl_nova_lsm.Common.{refl, List, [], ◌∷◌}
use bl_nova_lsm.Coding.{Bytes, encode_fixed64, decode_fixed64}
use bl_nova_lsm.Keys.{ycsb_key_comparator, str_to_int}
use bl_nova_lsm.InternalKey.{type_value, append_internal_key, extract_user_key, number_of}
use bl_nova_lsm.Files.{FileMetaData, new_file}
use bl_nova_lsm.Levels.Sorted.{HasKeys, IsLevel}
use bl_nova_lsm.Builder.InOrder.{IsFile}

abbrev pub key_of : Bytes → Bytes
key_of user = append_internal_key [] record { user_key = user; sequence = 9; type = type_value }

abbrev pub low_file : FileMetaData
low_file = record new_file {
  number = 7;
  level = 1;
  smallest = key_of (b'1' ∷ []);
  largest = key_of (b'3' ∷ []);
}

abbrev pub high_file : FileMetaData
high_file = record new_file {
  number = 8;
  level = 1;
  smallest = key_of (b'5' ∷ []);
  largest = key_of (b'7' ∷ []);
}

pub low_file-HasKeys : HasKeys low_file
unfolding append_internal_key extract_user_key number_of encode_fixed64 decode_fixed64
low_file-HasKeys =
    (record { user_at = refl; number_at = refl }, record { user_at = refl; number_at = refl })

pub high_file-HasKeys : HasKeys high_file
unfolding append_internal_key extract_user_key number_of encode_fixed64 decode_fixed64
high_file-HasKeys =
    (record { user_at = refl; number_at = refl }, record { user_at = refl; number_at = refl })

pub low_file-IsFile : IsFile ycsb_key_comparator low_file
unfolding append_internal_key extract_user_key number_of encode_fixed64 decode_fixed64
    ycsb_key_comparator str_to_int
low_file-IsFile = (low_file-HasKeys, λ h. absurd (cc))

pub high_file-IsFile : IsFile ycsb_key_comparator high_file
unfolding append_internal_key extract_user_key number_of encode_fixed64 decode_fixed64
    ycsb_key_comparator str_to_int
high_file-IsFile = (high_file-HasKeys, λ h. absurd (cc))

abbrev pub sample_level : List FileMetaData
sample_level = low_file ∷ high_file ∷ []

pub sample_level-IsLevel : IsLevel ycsb_key_comparator sample_level
unfolding append_internal_key extract_user_key number_of encode_fixed64 decode_fixed64
    ycsb_key_comparator str_to_int
sample_level-IsLevel = record {
  keys = (low_file-HasKeys, (high_file-HasKeys, tt));
  ranges = (low_file-IsFile.1, (high_file-IsFile.1, tt));
  apart = ((refl, tt), (tt, tt));
}
