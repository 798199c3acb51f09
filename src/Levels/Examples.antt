-- ===== src/Levels/Examples.antt =====
-- A level of two files, and a range of keys between them.
use bl_nova_lsm.Common.{◌≡◌, true, false, some, [], ◌∷◌, arith}
use bl_nova_lsm.Keys.{ycsb_key_comparator}
use bl_nova_lsm.InternalKey.{append_internal_key, extract_user_key, number_of}
use bl_nova_lsm.Coding.{encode_fixed64, decode_fixed64, join64}
use bl_nova_lsm.Levels.{some_file_overlaps_range}
use bl_nova_lsm.Levels.Overlap.{some_file_overlaps_range-same}
use bl_nova_lsm.Levels.Sample.{sample_level, sample_level-IsLevel}

some_file_overlaps_range-same_example :
    some_file_overlaps_range ycsb_key_comparator true sample_level
      (some (b'4' ∷ []))
      (some (b'6' ∷ []))
    ≡ some_file_overlaps_range ycsb_key_comparator false sample_level
        (some (b'4' ∷ []))
        (some (b'6' ∷ []))
unfolding append_internal_key extract_user_key number_of encode_fixed64 decode_fixed64 join64
some_file_overlaps_range-same_example =
    some_file_overlaps_range-same ycsb_key_comparator sample_level sample_level-IsLevel
      (omega arith, (omega arith, tt)) (omega arith) (some (b'4' ∷ [])) (some (b'6' ∷ []))
