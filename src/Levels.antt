-- ===== src/Levels.antt =====
-- db/version_set.cc: the search for files in a level and the overlaps of files with ranges of keys.
-- `none` is a failed assertion, here that an internal key has its eight bytes of number.
pub mod Sorted
pub mod Find
pub mod Cut
pub mod Overlap
pub mod Sample
mod Examples
use Prim.Native.Nat.{Ordering}
use bl_nova_lsm.Common.{
  ℕ, zero, suc, ◌+◌, ◌-◌, ◌/◌, ◌%◌, ◌^◌, Bool, true, false, not, Option, none, some, List, [], ◌∷◌,
  ltb, leb, if◌then◌else◌, ◌>>=◌, length, get_elem?,
}
use bl_nova_lsm.Coding.{Bytes}
use bl_nova_lsm.Keys.{Comparator}
use bl_nova_lsm.InternalKey.{
  value_type_for_seek, append_internal_key, extract_user_key, compare_internal,
}
use bl_nova_lsm.Files.{FileMetaData}

abbrev pub is_lt : Ordering → Bool
is_lt Ordering.lt = true
is_lt Ordering.eq = false
is_lt Ordering.gt = false

abbrev pub is_gt : Ordering → Bool
is_gt Ordering.lt = false
is_gt Ordering.eq = false
is_gt Ordering.gt = true

abbrev pub is_eq : Ordering → Bool
is_eq Ordering.lt = false
is_eq Ordering.eq = true
is_eq Ordering.gt = false

-- `while (left < right)` in FindFile; the end of the fuel is none, too. The sum of the bounds is an
-- uint32.
unfoldable pub find_loop : Comparator → List FileMetaData → Bytes → ℕ → ℕ → ℕ → Option ℕ
find_loop cmp files key zero left right = none
find_loop cmp files key (suc fuel) left right =
    let mid = (left + right) % 2 ^ 32 / 2 in
    let after = find_loop cmp files key fuel (mid + 1) right in
    let before = find_loop cmp files key fuel left mid in
    if ltb left right
    then (do
      f ← get_elem? files mid
      o ← compare_internal cmp f.largest key
      (if is_lt o then after else before))
    else some right

-- FindFile. Each round shortens the interval.
unfoldable pub find_file : Comparator → List FileMetaData → Bytes → Option ℕ
unfolding find_loop
find_file cmp files key = find_loop cmp files key (length files + 1) 0 (length files)

-- AfterFile; a null pointer is none.
unfoldable pub after_file : Comparator → Option Bytes → FileMetaData → Option Bool
after_file ucmp none f = some false
after_file ucmp (some user_key) f = do
  largest ← extract_user_key f.largest
  some (is_gt (ucmp.order user_key largest))

-- BeforeFile
unfoldable pub before_file : Comparator → Option Bytes → FileMetaData → Option Bool
before_file ucmp none f = some false
before_file ucmp (some user_key) f = do
  smallest ← extract_user_key f.smallest
  some (is_lt (ucmp.order user_key smallest))

-- The loop of SomeFileOverlapsRange that checks against all files.
unfoldable pub overlaps_any :
    Comparator → Option Bytes → Option Bytes → List FileMetaData → Option Bool
unfolding after_file before_file
overlaps_any ucmp smallest largest [] = some false
overlaps_any ucmp smallest largest (f ∷ fs) =
    let later = overlaps_any ucmp smallest largest fs in
    do
      after ← after_file ucmp smallest f
      apart ← (if after then some true else before_file ucmp largest f)
      (if apart then later else some true)

-- kMaxSequenceNumber
abbrev pub max_sequence_number : ℕ
max_sequence_number = 2 ^ 56 - 1

-- The index that the binary search starts from.
unfoldable pub first_index : Comparator → List FileMetaData → Option Bytes → Option ℕ
unfolding find_file
first_index icmp files none = some 0
first_index icmp files (some user_key) = find_file icmp files (
    append_internal_key []
      record { user_key = user_key; sequence = max_sequence_number; type = value_type_for_seek })

-- SomeFileOverlapsRange
unfoldable pub some_file_overlaps_range :
    Comparator → Bool → List FileMetaData → Option Bytes → Option Bytes → Option Bool
unfolding overlaps_any first_index
some_file_overlaps_range icmp disjoint_sorted_files files smallest largest =
    if disjoint_sorted_files
    then (do
      index ← first_index icmp files smallest
      (if leb (length files) index then some false else (do
        f ← get_elem? files index
        before ← before_file icmp largest f
        some (not before))))
    else overlaps_any icmp smallest largest files
