-- ===== src/Overlaps.antt =====
-- db/version_set.cc: how Version collects the files of a compaction that no other compaction touches,
-- and the routines on ranges of files beside it. `none` is a failed assertion, here that an internal
-- key has its eight bytes of number; the end of the fuel is none, too.
pub mod Widened
pub mod Scanned
pub mod Round
pub mod Closed
mod Examples
use Prim.Native.Nat.{Ordering}
use bl_nova_lsm.Common.{
  ℕ, zero, suc, ◌+◌, Bool, true, false, ◌||◌, Option, none, some, List, [], ◌∷◌, ◌++◌, map, ltb,
  ◌==◌, if◌then◌else◌, ◌>>=◌, length,
}
use bl_nova_lsm.Common.Sets.{insert, contains}
use bl_nova_lsm.Coding.{Bytes}
use bl_nova_lsm.Keys.{Comparator}
use bl_nova_lsm.InternalKey.{extract_user_key}
use bl_nova_lsm.Files.{FileMetaData}
use bl_nova_lsm.Levels.{is_lt, is_gt}

-- Two user keys, the smallest and the largest of some files.
pub record Bounds : Type 0 where
  pub lower : Bytes
  pub upper : Bytes

-- The user keys of a file.
unfoldable pub bounds_of : FileMetaData → Option Bounds
bounds_of f = do
  s ← extract_user_key f.smallest
  l ← extract_user_key f.largest
  some record { lower = s; upper = l }

module _ (ucmp : Comparator) where
  -- `Compare(lower, largest) > 0`, or `Compare(upper, smallest) < 0`
  abbrev pub is_apart : Bounds → Bounds → Bool
  is_apart r b = is_gt (ucmp.order r.lower b.upper) || is_lt (ucmp.order r.upper b.lower)

  -- The smaller lower and the greater upper key.
  abbrev pub widen : Bounds → Bounds → Bounds
  widen b r = record {
    lower = if is_lt (ucmp.order b.lower r.lower) then b.lower else r.lower;
    upper = if is_gt (ucmp.order b.upper r.upper) then b.upper else r.upper;
  }

-- enum Version::OverlappingFileResult
pub data OverlappingFileResult : Type 0 where
  overlap_found_new_tables overlap_exceed_max overlap_no_new_tables : OverlappingFileResult

-- What ComputeOverlappingFilesInRange leaves: its result, `*files`, `compaction->inputs_[which]`, and
-- the new bounds.
pub record Scan : Type 0 where
  pub result : OverlappingFileResult
  pub files : List FileMetaData
  pub inputs : List FileMetaData
  pub new_bounds : Bounds

-- The loop of ComputeOverlappingFilesInRange. A file that exceeds the maximum stays in `files`.
unfoldable pub scan_files :
    Comparator
    → ℕ
    → Bounds
    → List FileMetaData
    → OverlappingFileResult
    → List FileMetaData
    → Bounds
    → Option Scan
unfolding bounds_of
scan_files ucmp max_num range [] result inputs new_bounds =
    some record { result = result; files = []; inputs = inputs; new_bounds = new_bounds }
scan_files ucmp max_num range (f ∷ fs) result inputs new_bounds =
    let skipped = scan_files ucmp max_num range fs result inputs new_bounds in
    do
      b ← bounds_of f
      (let wider = widen ucmp b new_bounds in
          let chosen = inputs ++ (f ∷ []) in
          let added = scan_files ucmp max_num range fs overlap_found_new_tables chosen wider in
          if is_apart ucmp range b
          then (do s ← skipped; some record s { files = f ∷ s.files })
          else if ltb max_num (length chosen)
          then some record {
            result = overlap_exceed_max;
            files = f ∷ fs;
            inputs = chosen;
            new_bounds = wider;
          }
          else added)

-- Version::ComputeOverlappingFilesInRange
unfoldable pub compute_overlapping_in_range :
    Comparator → ℕ → List FileMetaData → List FileMetaData → Bounds → Option Scan
unfolding scan_files
compute_overlapping_in_range ucmp max_num files inputs range =
    scan_files ucmp max_num range files overlap_no_new_tables inputs range

-- The two vectors of files, the inputs of the compaction from each, and the bounds of its keys.
pub record Collected : Type 0 where
  pub l0inputs : List FileMetaData
  pub l1inputs : List FileMetaData
  pub inputs0 : List FileMetaData
  pub inputs1 : List FileMetaData
  pub bounds : Bounds

abbrev pub is_exceeded : OverlappingFileResult → Bool
is_exceeded overlap_found_new_tables = false
is_exceeded overlap_exceed_max = true
is_exceeded overlap_no_new_tables = false

abbrev pub is_found : OverlappingFileResult → Bool
is_found overlap_found_new_tables = true
is_found overlap_exceed_max = false
is_found overlap_no_new_tables = false

-- The loop of ComputeOverlappingFilesForRange.
unfoldable pub collect_loop : Comparator → ℕ → ℕ → Collected → Option Collected
unfolding compute_overlapping_in_range
collect_loop ucmp max_num zero c = none
collect_loop ucmp max_num (suc fuel) c = do
  s0 ← compute_overlapping_in_range ucmp max_num c.l0inputs c.inputs0 c.bounds
  s1 ← compute_overlapping_in_range ucmp max_num c.l1inputs c.inputs1 s0.new_bounds
  (let c' : Collected = record {
    l0inputs = s0.files;
    l1inputs = s1.files;
    inputs0 = s0.inputs;
    inputs1 = s1.inputs;
    bounds = s1.new_bounds;
  } in
      let again = collect_loop ucmp max_num fuel c' in
      if ltb max_num (length s0.inputs + length s1.inputs)
      then some c'
      else if is_exceeded s0.result || is_exceeded s1.result
      then some c'
      else if is_found s0.result || is_found s1.result
      then again
      else some c')

-- Version::ComputeOverlappingFilesForRange for a compaction without inputs; each round but the last
-- takes a file out of the vectors. None is an empty first vector.
unfoldable pub compute_overlapping_for_range :
    Comparator → ℕ → List FileMetaData → List FileMetaData → Option Collected
unfolding collect_loop bounds_of
compute_overlapping_for_range ucmp max_num [] l1inputs = none
compute_overlapping_for_range ucmp max_num (f ∷ l0inputs) l1inputs = do
  b ← bounds_of f
  collect_loop ucmp max_num (length (f ∷ l0inputs) + length l1inputs + 1) record {
    l0inputs = f ∷ l0inputs;
    l1inputs = l1inputs;
    inputs0 = [];
    inputs1 = [];
    bounds = b;
  }
