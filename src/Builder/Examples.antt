-- ===== src/Builder/Examples.antt =====
-- A version with a file of level 1, to which an edit adds another.
use bl_nova_lsm.Common.{ℕ, ◌≡◌, refl, false, some, List, [], ◌∷◌, get_elem?, arith}
use bl_nova_lsm.Common.Sets.{contains}
use bl_nova_lsm.Coding.{encode_fixed64, decode_fixed64}
use bl_nova_lsm.Keys.{ycsb_key_comparator, str_to_int}
use bl_nova_lsm.InternalKey.{append_internal_key, compare_internal, type_value, ParsedInternalKey}
use bl_nova_lsm.InternalKey.Seen.{seen_of, append_internal_key-Shows}
use bl_nova_lsm.Files.{FileMetaData}
use bl_nova_lsm.Levels.{find_file}
use bl_nova_lsm.Levels.Sorted.{IsLevel}
use bl_nova_lsm.Levels.Find.{Parts}
use bl_nova_lsm.Levels.Sample.{low_file, high_file, sample_level, low_file-IsFile, high_file-IsFile}
use bl_nova_lsm.Builder.{LevelState, Builder, save_to, has_number}
use bl_nova_lsm.Builder.Members.{next_numbers, save_to-numbers}
use bl_nova_lsm.Builder.Saved.{AllFiles, save_to-find_file}

abbrev no_change : LevelState
no_change = record { deleted_files = []; added_files = [] }

abbrev one_added : LevelState
one_added = record { deleted_files = []; added_files = high_file ∷ [] }

abbrev builder : Builder
builder = record {
  levels = no_change ∷ one_added ∷ [];
  added_files_map = high_file ∷ [];
  update_replica_locations = false;
}

abbrev base_files : List (List FileMetaData)
base_files = [] ∷ (low_file ∷ []) ∷ []

saved_files : save_to ycsb_key_comparator builder base_files ≡ some ([] ∷ sample_level ∷ [], 0)
unfolding save_to compare_internal append_internal_key encode_fixed64 decode_fixed64 contains
    ycsb_key_comparator str_to_int
saved_files = refl

save_to-numbers_example :
    (fs : List FileMetaData) × (get_elem? ([] ∷ sample_level ∷ []) 1 ≡ some fs)
    × ((n : ℕ) → has_number fs n ≡ next_numbers false one_added (low_file ∷ []) n)
save_to-numbers_example =
    save_to-numbers ycsb_key_comparator builder base_files ([] ∷ sample_level ∷ [], 0) saved_files 1
      one_added (low_file ∷ []) refl refl

all_files : AllFiles ycsb_key_comparator builder (no_change ∷ one_added ∷ []) base_files
all_files = record {
  base_files = (tt, ((low_file-IsFile, tt), tt));
  new_files = (tt, ((high_file-IsFile, tt), tt));
  mapped_files = (high_file-IsFile, tt);
}

abbrev six : ParsedInternalKey
six = record { user_key = b'6' ∷ []; sequence = 9; type = type_value }

save_to-find_file_example :
    IsLevel ycsb_key_comparator sample_level
    × ((r : ℕ) × (find_file ycsb_key_comparator sample_level (append_internal_key [] six) ≡ some r)
        × Parts ycsb_key_comparator sample_level (seen_of six) r)
save_to-find_file_example =
    save_to-find_file ycsb_key_comparator builder base_files ([] ∷ sample_level ∷ [], 0) all_files
      saved_files 1 sample_level (omega arith) refl (omega arith) (append_internal_key [] six)
      (seen_of six) (append_internal_key-Shows six (omega arith))
