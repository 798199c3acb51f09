-- ===== src/CompactionInputs/Examples.antt =====
-- The files of a level, a range of keys, and two compactions whose ranges overlap.
use Prim.Native.Nat.{Ordering}
use bl_nova_lsm.Common.{
  ◌+◌, ◌≡◌, ◌≢◌, refl, Bool, true, false, some, List, [], ◌∷◌, ◌++◌, All, arith,
}
use bl_nova_lsm.Common.Sets.{insert}
use bl_nova_lsm.Coding.{encode_fixed64}
use bl_nova_lsm.Keys.{ycsb_key_comparator, str_to_int}
use bl_nova_lsm.InternalKey.{append_internal_key, extract_user_key}
use bl_nova_lsm.Files.{FileMetaData}
use bl_nova_lsm.Levels.Sample.{key_of, low_file, high_file, low_file-HasKeys, high_file-HasKeys}
use bl_nova_lsm.Overlaps.{Bounds, bounds_of}
use bl_nova_lsm.Overlaps.Widened.{count, Inside, AllInside}
use bl_nova_lsm.CompactionInputs.{
  Compaction, get_overlapping_inputs, remove_overlap_tables, get_range, ranges_of_sets,
  assert_non_overlapping_set, range_of_files,
}
use bl_nova_lsm.CompactionInputs.Chosen.{is_overlapping, remove_overlap_tables-complements}
use bl_nova_lsm.CompactionInputs.Wanted.{FirstWanted, get_overlapping_inputs-FirstWanted}
use bl_nova_lsm.CompactionInputs.Ranges.{get_range-Hull, assert_non_overlapping_set-Elsewhere}

abbrev range : Bounds
range = record { lower = b'2' ∷ []; upper = b'4' ∷ [] }

abbrev files : List FileMetaData
files = low_file ∷ high_file ∷ []

abbrev wide_range : Bounds
wide_range = record { lower = b'0' ∷ []; upper = b'9' ∷ [] }

get_overlapping_inputs-FirstWanted_example :
    (chosen : List FileMetaData) × (get_overlapping_inputs ycsb_key_comparator files wide_range
        (high_file ∷ [])
        1
        (8 ∷ [])
        true
      ≡ some ((high_file ∷ []) ++ chosen))
    × FirstWanted ycsb_key_comparator wide_range (8 ∷ []) true 1 files chosen
get_overlapping_inputs-FirstWanted_example =
    get_overlapping_inputs-FirstWanted ycsb_key_comparator wide_range (8 ∷ []) true files
      (high_file ∷ []) 1 (low_file-HasKeys, (high_file-HasKeys, tt))

remove_overlap_tables-complements_example :
    (chosen left : List FileMetaData) × (get_overlapping_inputs ycsb_key_comparator files range [] 9
        [] false
      ≡ some chosen)
    × (remove_overlap_tables ycsb_key_comparator files range ≡ some left)
    × All (λ f. is_overlapping ycsb_key_comparator range f ≡ false) left
    × ((p : FileMetaData → Bool) → count p files ≡ count p chosen + count p left)
remove_overlap_tables-complements_example =
    remove_overlap_tables-complements ycsb_key_comparator range files 9
      (low_file-HasKeys, (high_file-HasKeys, tt)) (omega arith)

get_range-Hull_example :
    (s : Bounds) × (get_range ycsb_key_comparator files range ≡ some s)
    × AllInside ycsb_key_comparator s files
    × ((t : Bounds) → AllInside ycsb_key_comparator t files → Inside ycsb_key_comparator s t)
get_range-Hull_example =
    get_range-Hull ycsb_key_comparator low_file (high_file ∷ []) range
      (low_file-HasKeys, (high_file-HasKeys, tt))

-- From 2 to 7, over the keys of the file from 1 to 3.
abbrev wide_file : FileMetaData
wide_file = record high_file { smallest = key_of (b'2' ∷ []) }

abbrev one_file : FileMetaData → Compaction
one_file f = record { level = 0; target_level = 1; inputs0 = f ∷ []; inputs1 = [] }

abbrev ranges : List Bounds
ranges =
    record { lower = b'1' ∷ []; upper = b'3' ∷ [] }
    ∷ record { lower = b'2' ∷ []; upper = b'7' ∷ [] }
    ∷ []

sets_scanned :
    ranges_of_sets ycsb_key_comparator 4 (one_file low_file ∷ one_file wide_file ∷ []) [] []
    ≡ some (some ranges)
unfolding ranges_of_sets range_of_files bounds_of append_internal_key extract_user_key
    encode_fixed64 ycsb_key_comparator str_to_int insert
sets_scanned = refl

lt≢eq : Ordering.lt ≢ Ordering.eq
lt≢eq h = absurd (cc)

gt≢eq : Ordering.gt ≢ Ordering.eq
gt≢eq h = absurd (cc)

assert_non_overlapping_set-Elsewhere_example :
    assert_non_overlapping_set ycsb_key_comparator 4 (one_file low_file ∷ one_file wide_file ∷ [])
    ≡ some true
unfolding ycsb_key_comparator str_to_int
assert_non_overlapping_set-Elsewhere_example =
    assert_non_overlapping_set-Elsewhere ycsb_key_comparator 4 (one_file low_file)
      (one_file wide_file ∷ []) ranges sets_scanned
      ((gt≢eq, (gt≢eq, tt)), ((gt≢eq, (gt≢eq, tt)), tt))
