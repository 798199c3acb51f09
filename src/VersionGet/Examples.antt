-- ===== src/VersionGet/Examples.antt =====
-- Two level-0 files that both have a value for a key, and a level with a file for it.
use bl_nova_lsm.Common.{
  none, ℕ, ◌≡◌, refl, true, Option, some, List, [], ◌∷◌, ◌==◌, if◌then◌else◌, get_elem?, arith,
}
use bl_nova_lsm.Coding.{Bytes, encode_fixed64, decode_fixed64, join64}
use bl_nova_lsm.Keys.{ycsb_key_comparator, str_to_int}
use bl_nova_lsm.InternalKey.{
  ParsedInternalKey, type_value, append_internal_key, extract_user_key, number_of,
  parse_internal_key,
}
use bl_nova_lsm.InternalKey.Seen.{seen_of, append_internal_key-Shows}
use bl_nova_lsm.Files.{FileMetaData}
use bl_nova_lsm.Levels.Sample.{high_file, low_file, sample_level, sample_level-IsLevel}
use bl_nova_lsm.VersionGet.{TableGet, best, find_number, get_level0, level_candidate}
use bl_nova_lsm.VersionGet.Outcomes.{Has, Lacks, behind, holds, lacks, done, and_then}
use bl_nova_lsm.VersionGet.Level0.{get_level0-first}
use bl_nova_lsm.VersionGet.Candidate.{MayHave, FirstFor, level_candidate-first}

abbrev key : ℕ → ParsedInternalKey
key sequence = record { user_key = b'2' ∷ []; sequence = sequence; type = type_value }

-- The files 7 and 9 have the key, and 8 has not, with the sequence numbers 4 and 6.
abbrev newer_file : FileMetaData
newer_file = record low_file { number = 9 }

abbrev level0 : List FileMetaData
level0 = low_file ∷ high_file ∷ newer_file ∷ []

abbrev table_get : TableGet
table_get f ikey =
    if f.number == 7
    then some (append_internal_key [] (key 4), b'x' ∷ [])
    else some (append_internal_key [] (key 6), b'y' ∷ [])

abbrev sought : Bytes
sought = append_internal_key [] (key 8)

older-Has :
    Has ycsb_key_comparator table_get level0
      (b'2' ∷ [])
      sought
      7
      low_file
      (b'1' ∷ [])
      (b'3' ∷ [])
      (append_internal_key [] (key 4))
      (key 4)
      (b'x' ∷ [])
unfolding find_number append_internal_key parse_internal_key extract_user_key number_of
    encode_fixed64 decode_fixed64 ycsb_key_comparator str_to_int join64
older-Has = record {
  numbered = refl;
  smallest_at = refl;
  largest_at = refl;
  above = refl;
  below = refl;
  entry = refl;
  parsed = refl;
  of_key = refl;
  of_value = refl;
}

newer-Has :
    Has ycsb_key_comparator table_get level0
      (b'2' ∷ [])
      sought
      9
      newer_file
      (b'1' ∷ [])
      (b'3' ∷ [])
      (append_internal_key [] (key 6))
      (key 6)
      (b'y' ∷ [])
unfolding find_number append_internal_key parse_internal_key extract_user_key number_of
    encode_fixed64 decode_fixed64 ycsb_key_comparator str_to_int join64
newer-Has = record {
  numbered = refl;
  smallest_at = refl;
  largest_at = refl;
  above = refl;
  below = refl;
  entry = refl;
  parsed = refl;
  of_key = refl;
  of_value = refl;
}

high-Lacks :
    Lacks ycsb_key_comparator table_get level0
      (b'2' ∷ [])
      sought
      8
      high_file
      (b'5' ∷ [])
      (b'7' ∷ [])
unfolding find_number append_internal_key parse_internal_key extract_user_key number_of
    encode_fixed64 decode_fixed64 ycsb_key_comparator str_to_int join64
high-Lacks = record { numbered = refl; smallest_at = refl; largest_at = refl; place = behind refl }

-- The value of sequence number 4 is returned, with the sequence number 6.
get_level0-first_example :
    get_level0 ycsb_key_comparator table_get level0 (b'2' ∷ []) sought (8 ∷ 7 ∷ 9 ∷ 8 ∷ []) 0 []
    ≡ some (best record { is_found = true; seq = 6; value = b'x' ∷ [] })
get_level0-first_example =
    get_level0-first ycsb_key_comparator table_get level0 (b'2' ∷ []) sought (8 ∷ 7 ∷ 9 ∷ 8 ∷ [])
      (none ∷ some (4, b'x' ∷ []) ∷ some (6, b'y' ∷ []) ∷ none ∷ []) 0 []
      (and_then (lacks high_file (b'5' ∷ []) (b'7' ∷ []) high-Lacks) (
        and_then
          (holds low_file (b'1' ∷ []) (b'3' ∷ []) (append_internal_key [] (key 4)) (key 4)
            (b'x' ∷ []) older-Has)
          (and_then
            (holds newer_file (b'1' ∷ []) (b'3' ∷ []) (append_internal_key [] (key 6)) (key 6)
              (b'y' ∷ []) newer-Has)
            (and_then (lacks high_file (b'5' ∷ []) (b'7' ∷ []) high-Lacks) done))))

level_candidate-first_example :
    (c : Option FileMetaData) × (level_candidate ycsb_key_comparator (b'2' ∷ []) sought sample_level
      ≡ some c)
    × ((i : ℕ) (g : FileMetaData)
        → get_elem? sample_level i ≡ some g
        → MayHave ycsb_key_comparator sample_level sample_level-IsLevel (seen_of (key 8)) g
        → (f : FileMetaData) × (c ≡ some f)
          × FirstFor ycsb_key_comparator sample_level sample_level-IsLevel (seen_of (key 8)) f i)
level_candidate-first_example =
    level_candidate-first ycsb_key_comparator sample_level sample_level-IsLevel (seen_of (key 8))
      sought (omega arith) (append_internal_key-Shows (key 8) (omega arith))
