-- ===== src/Builder.antt =====
-- VersionSet::Builder (db/version_set.cc): the files of a version and an edit, merged into the files
-- of the next version. A FileSet is the list of its files in the order BySmallestKey, a std::set of
-- numbers is ascending, and added_files_map is the list of its entries, the newest first. `none` is a
-- failed assertion or a level that does not exist. The fields that FileMetaData leaves out (refs,
-- allowed_seeks, compaction_status, and the assertion on the last) are left out here, too.
pub mod Members
pub mod InOrder
pub mod Saved
mod Examples
use Prim.Native.Nat.{Ordering}
use bl_nova_lsm.Common.{
  ℕ, zero, suc, ◌+◌, Bool, true, false, not, ◌||◌, Option, none, some, List, [], ◌∷◌, ◌++◌, ltb,
  ◌==◌, if◌then◌else◌, ◌>>=◌, ◌>>◌, guard, get_elem?, set_elem,
}
use bl_nova_lsm.Common.Sets.{insert, erase, contains}
use bl_nova_lsm.Keys.{Comparator}
use bl_nova_lsm.InternalKey.{compare_internal}
use bl_nova_lsm.Files.{FileMetaData}
use bl_nova_lsm.VersionEdit.{VersionEdit}
use bl_nova_lsm.Levels.{is_lt}

abbrev pub by_order : Ordering → FileMetaData → FileMetaData → Bool
by_order Ordering.lt f1 f2 = true
by_order Ordering.eq f1 f2 = ltb f1.number f2.number
by_order Ordering.gt f1 f2 = false

-- Builder::BySmallestKey
unfoldable pub by_smallest_key : Comparator → FileMetaData → FileMetaData → Option Bool
by_smallest_key icmp f1 f2 = do
  r ← compare_internal icmp f1.smallest f2.smallest
  some (by_order r f1 f2)

-- FileSet::insert: a file that is equal to one of the set is not inserted.
unfoldable pub insert_file :
    Comparator → FileMetaData → List FileMetaData → Option (List FileMetaData)
unfolding by_smallest_key
insert_file icmp f [] = some (f ∷ [])
insert_file icmp f (g ∷ gs) =
    let later = insert_file icmp f gs in
    do
      before ← by_smallest_key icmp f g
      after ← by_smallest_key icmp g f
      (if before
          then some (f ∷ g ∷ gs)
          else if after
          then (do rest ← later; some (g ∷ rest))
          else some (g ∷ gs))

-- Builder::LevelState
pub record LevelState : Type 0 where
  pub deleted_files : List ℕ
  pub added_files : List FileMetaData

pub record Builder : Type 0 where
  pub levels : List LevelState
  pub added_files_map : List FileMetaData
  pub update_replica_locations : Bool

-- The loop of Apply over the deleted files.
unfoldable pub apply_deleted : List (ℕ × ℕ) → List LevelState → Option (List LevelState)
apply_deleted [] levels = some levels
apply_deleted ((level, number) ∷ rest) levels = do
  l ← get_elem? levels level
  apply_deleted rest
      (set_elem levels level (record l { deleted_files = insert number l.deleted_files }))

-- The loop of Apply over the new files.
unfoldable pub apply_new :
    Comparator
    → List (ℕ × FileMetaData)
    → List LevelState
    → List FileMetaData
    → Option (List LevelState × List FileMetaData)
unfolding insert_file
apply_new icmp [] levels added_files_map = some (levels, added_files_map)
apply_new icmp ((level, f) ∷ rest) levels added_files_map = do
  l ← get_elem? levels level
  added ← insert_file icmp f l.added_files
  apply_new icmp rest
      (set_elem levels level
        record { deleted_files = erase f.number l.deleted_files; added_files = added })
      (f ∷ added_files_map)

-- Builder::Apply
unfoldable pub apply : Comparator → VersionEdit → Builder → Option Builder
unfolding apply_deleted apply_new
apply icmp edit b = do
  levels1 ← apply_deleted edit.deleted_files b.levels
  (levels2, added_files_map) ← apply_new icmp edit.new_files levels1 b.added_files_map
  some record {
    levels = levels2;
    added_files_map = added_files_map;
    update_replica_locations = edit.update_replica_locations;
  }

-- The version that SaveTo fills: the files of the level, the files of all levels, and l0_bytes_.
pub record Saving : Type 0 where
  pub level_files : List FileMetaData
  pub fn_files : List FileMetaData
  pub l0_bytes : ℕ

unfoldable pub has_number : List FileMetaData → ℕ → Bool
has_number [] number = false
has_number (f ∷ fs) number = f.number == number || has_number fs number

-- `Compare((*files)[files->size() - 1]->largest, f->smallest) < 0`, or there is no file.
unfoldable pub last_before : Comparator → List FileMetaData → FileMetaData → Option Bool
last_before icmp [] f = some true
last_before icmp (g ∷ []) f = do r ← compare_internal icmp g.largest f.smallest; some (is_lt r)
last_before icmp (g ∷ h ∷ gs) f = last_before icmp (h ∷ gs) f

-- Builder::MaybeAddFile
unfoldable pub maybe_add_file : Comparator → ℕ → List ℕ → FileMetaData → Saving → Option Saving
unfolding last_before has_number
maybe_add_file icmp level deleted_files f v =
    if contains deleted_files f.number then some v else (do
      in_order ← (if ltb 0 level then last_before icmp v.level_files f else some true)
      guard in_order
      guard (not (has_number v.fn_files f.number))
      some record {
        level_files = v.level_files ++ (f ∷ []);
        fn_files = v.fn_files ++ (f ∷ []);
        l0_bytes = if f.level == 0 then v.l0_bytes + f.file_size else v.l0_bytes;
      })

-- Adding all files of a list.
unfoldable pub add_files : Comparator → ℕ → List ℕ → List FileMetaData → Saving → Option Saving
unfolding maybe_add_file
add_files icmp level deleted_files [] v = some v
add_files icmp level deleted_files (f ∷ fs) v = do
  v' ← maybe_add_file icmp level deleted_files f v
  add_files icmp level deleted_files fs v'

-- The base files up to std::upper_bound for the added file, and those from there on.
unfoldable pub split_base :
    Comparator → FileMetaData → List FileMetaData → Option (List FileMetaData × List FileMetaData)
unfolding by_smallest_key
split_base icmp added_file [] = some ([], [])
split_base icmp added_file (f ∷ base) =
    let later = split_base icmp added_file base in
    do
      less ← by_smallest_key icmp added_file f
      (if less then some ([], f ∷ base) else (do (l, r) ← later; some (f ∷ l, r)))

-- The loop of SaveTo over the added files, and the remaining base files.
unfoldable pub merge_files :
    Comparator → ℕ → List ℕ → List FileMetaData → List FileMetaData → Saving → Option Saving
unfolding split_base add_files maybe_add_file
merge_files icmp level deleted_files [] base v = add_files icmp level deleted_files base v
merge_files icmp level deleted_files (f ∷ added) base v = do
  (smaller, rest) ← split_base icmp f base
  v1 ← add_files icmp level deleted_files smaller v
  v2 ← maybe_add_file icmp level deleted_files f v1
  merge_files icmp level deleted_files added rest v2

-- The base file, or the one that replaces it in added_files_map.
unfoldable pub replacement : List FileMetaData → FileMetaData → FileMetaData
replacement [] f = f
replacement (g ∷ gs) f = let later = replacement gs f in if g.number == f.number then g else later

unfoldable pub replace_all : List FileMetaData → List FileMetaData → List FileMetaData
unfolding replacement
replace_all added_files_map [] = []
replace_all added_files_map (f ∷ base) =
    replacement added_files_map f ∷ replace_all added_files_map base

-- A round of SaveTo.
unfoldable pub save_level :
    Comparator → Builder → ℕ → LevelState → List FileMetaData → Saving → Option Saving
unfolding add_files replace_all merge_files
save_level icmp b level l base v =
    if b.update_replica_locations
    then add_files icmp level l.deleted_files (replace_all b.added_files_map base) v
    else merge_files icmp level l.deleted_files l.added_files base v

-- The loop of SaveTo over the levels, from `level` on; what is said of `v` is of the levels before.
unfoldable pub save_levels :
    Comparator
    → Builder
    → ℕ
    → List LevelState
    → List (List FileMetaData)
    → List FileMetaData
    → ℕ
    → Option (List (List FileMetaData) × ℕ)
unfolding save_level
save_levels icmp b level [] bases fn_files l0_bytes = some ([], l0_bytes)
save_levels icmp b level (l ∷ ls) [] fn_files l0_bytes = none
save_levels icmp b level (l ∷ ls) (base ∷ bases) fn_files l0_bytes = do
  v ←
      save_level icmp b level l base
        record { level_files = []; fn_files = fn_files; l0_bytes = l0_bytes }
  (files, bytes) ← save_levels icmp b (level + 1) ls bases v.fn_files v.l0_bytes
  some (v.level_files ∷ files, bytes)

-- Builder::SaveTo into a new version: its files_ and its l0_bytes_.
unfoldable pub save_to :
    Comparator → Builder → List (List FileMetaData) → Option (List (List FileMetaData) × ℕ)
unfolding save_levels
save_to icmp b base_files = save_levels icmp b 0 b.levels base_files [] 0
