-- ===== src/CompactionInputs.antt =====
-- The inputs of a compaction (db/version_set.cc): Version::GetOverlappingInputs, GetRange,
-- RemoveOverlapTablesWithRange and AssertNonOverlappingSet. `none` is a key that is too short. A std::set of numbers is a list.
pub mod Chosen
pub mod Wanted
pub mod Ranges
mod Examples
use Prim.Native.Nat.{Ordering}
use bl_nova_lsm.Common.{
  ℕ, ◌+◌, Bool, true, false, not, ◌&&◌, ◌||◌, Option, none, some, List, [], ◌∷◌, ◌++◌, ltb, ◌==◌,
  if◌then◌else◌, ◌>>=◌, length, map,
}
use bl_nova_lsm.Common.Sets.{contains, insert}
use bl_nova_lsm.Coding.{Bytes}
use bl_nova_lsm.Keys.{Comparator}
use bl_nova_lsm.Files.{FileMetaData}
use bl_nova_lsm.Levels.{is_lt, is_gt}
use bl_nova_lsm.Overlaps.{Bounds, bounds_of, widen}

-- `add_file` of GetOverlappingInputs, for a file of the bounds `b`.
abbrev pub is_chosen : Comparator → Bool → Bounds → Bounds → Bool
is_chosen ucmp contained range b =
    if is_lt (ucmp.order b.upper range.lower)
    then false
    else if is_gt (ucmp.order b.lower range.upper)
    then false
    else if not contained
    then true
    else is_lt (ucmp.order range.lower b.lower) && is_gt (ucmp.order range.upper b.upper)

-- The loop of GetOverlappingInputs.
unfoldable pub choose_files :
    Comparator
    → Bounds
    → ℕ
    → List ℕ
    → Bool
    → List FileMetaData
    → ℕ
    → List FileMetaData
    → Option (List FileMetaData)
unfolding bounds_of contains
choose_files ucmp range limit skip_files contained [] new_files outputs = some outputs
choose_files ucmp range limit skip_files contained (f ∷ fs) new_files outputs =
    let skipped = choose_files ucmp range limit skip_files contained fs new_files outputs in
    let more = outputs ++ (f ∷ []) in
    let taken = choose_files ucmp range limit skip_files contained fs (new_files + 1) more in
    if contains skip_files f.number then skipped else (do
      b ← bounds_of f
      (if is_chosen ucmp contained range b
          then if new_files + 1 == limit then some more else taken
          else skipped))

-- Version::GetOverlappingInputs
unfoldable pub get_overlapping_inputs :
    Comparator
    → List FileMetaData
    → Bounds
    → List FileMetaData
    → ℕ
    → List ℕ
    → Bool
    → Option (List FileMetaData)
unfolding choose_files
get_overlapping_inputs ucmp inputs range outputs limit skip_files contained =
    if limit == 0
    then some outputs
    else choose_files ucmp range limit skip_files contained inputs 0 outputs

-- Version::RemoveOverlapTablesWithRange
unfoldable pub remove_overlap_tables :
    Comparator → List FileMetaData → Bounds → Option (List FileMetaData)
unfolding bounds_of
remove_overlap_tables ucmp [] range = some []
remove_overlap_tables ucmp (f ∷ fs) range =
    let rest = remove_overlap_tables ucmp fs range in
    do
      b ← bounds_of f
      (if is_lt (ucmp.order b.upper range.lower)
          then (do fs' ← rest; some (f ∷ fs'))
          else if is_gt (ucmp.order b.lower range.upper)
          then (do fs' ← rest; some (f ∷ fs'))
          else rest)

-- The loop of GetRange behind the first file.
unfoldable pub widen_range : Comparator → List FileMetaData → Bounds → Option Bounds
unfolding bounds_of
widen_range ucmp [] range = some range
widen_range ucmp (f ∷ fs) range = do b ← bounds_of f; widen_range ucmp fs (widen ucmp b range)

-- Version::GetRange, which leaves the range as it is where there are no inputs.
unfoldable pub get_range : Comparator → List FileMetaData → Bounds → Option Bounds
unfolding bounds_of widen_range
get_range ucmp [] range = some range
get_range ucmp (f ∷ fs) range = do b ← bounds_of f; widen_range ucmp fs b

-- What AssertNonOverlappingSet reads of a Compaction.
pub record Compaction : Type 0 where
  pub level : ℕ
  pub target_level : ℕ
  pub inputs0 : List FileMetaData
  pub inputs1 : List FileMetaData

abbrev pub is_unset : Bytes → Bool
is_unset [] = true
is_unset (c ∷ cs) = false

-- The range of a set with one more file.
unfoldable pub add_to_range : Comparator → Bounds → Bounds → Bounds
add_to_range ucmp b r = record {
  lower = if is_unset r.lower || is_lt (ucmp.order b.lower r.lower) then b.lower else r.lower;
  upper = if is_unset r.upper || is_lt (ucmp.order b.upper r.upper) then b.upper else r.upper;
}

-- The loop of AssertNonOverlappingSet over the files of a set, with the numbers seen; the inner none is a
-- number that was seen before.
unfoldable pub range_of_files :
    Comparator → List FileMetaData → List ℕ → Bounds → Option (Option (List ℕ × Bounds))
unfolding contains bounds_of add_to_range
range_of_files ucmp [] seen_files r = some (some (seen_files, r))
range_of_files ucmp (f ∷ fs) seen_files r = if contains seen_files f.number then some none else (do
  b ← bounds_of f
  range_of_files ucmp fs (insert f.number seen_files) (add_to_range ucmp b r))

abbrev pub if_unseen :
    Option (List ℕ × Bounds)
    → (List ℕ → Bounds → Option (Option (List Bounds)))
    → Option (Option (List Bounds))
if_unseen none k = some none
if_unseen (some (seen_files, r)) k = k seen_files r

-- The loop of AssertNonOverlappingSet over the sets; the inner none is `return false`.
unfoldable pub ranges_of_sets :
    Comparator → ℕ → List Compaction → List ℕ → List Bounds → Option (Option (List Bounds))
unfolding range_of_files
ranges_of_sets ucmp max_num [] seen_files ranges = some (some ranges)
ranges_of_sets ucmp max_num (c ∷ cs) seen_files ranges =
    let too_large = ltb max_num (length c.inputs0 + length c.inputs1) in
    if too_large then some none else (do
      scanned ←
          range_of_files ucmp (c.inputs0 ++ c.inputs1) seen_files record { lower = []; upper = [] }
      if_unseen scanned (λ seen_files' r.
          let kept = if c.level == c.target_level then ranges else ranges ++ (r ∷ []) in
          let later = ranges_of_sets ucmp max_num cs seen_files' kept in
          if is_gt (ucmp.order r.lower r.upper) then some none else later))

-- `continue` for a range at the place `i`.
abbrev pub is_passed : Comparator → Bounds → ℕ → ℕ → Bounds → Bool
is_passed ucmp p pivot i r =
    i == pivot || (is_lt (ucmp.order p.upper r.lower) || is_lt (ucmp.order r.lower p.upper))

-- The inner loop of the last check, from the place `i` on: each `continue` follows an `i++`, so that it
-- passes over the next range, too.
unfoldable pub passes : Comparator → Bounds → ℕ → ℕ → List Bounds → Bool
passes ucmp p pivot i [] = true
passes ucmp p pivot i (r ∷ []) = is_passed ucmp p pivot i r
passes ucmp p pivot i (r ∷ r' ∷ rs) = is_passed ucmp p pivot i r && passes ucmp p pivot (i + 2) rs

-- The outer loop of the last check, over the pivots from the place `pivot` on.
unfoldable pub pivots_pass : Comparator → List Bounds → ℕ → List Bounds → Bool
unfolding passes
pivots_pass ucmp ranges pivot [] = true
pivots_pass ucmp ranges pivot (p ∷ ps) =
    passes ucmp p pivot 0 ranges && pivots_pass ucmp ranges (pivot + 1) ps

abbrev pub checked : Comparator → Option (List Bounds) → Bool
checked ucmp none = false
checked ucmp (some ranges) = pivots_pass ucmp ranges 0 ranges

-- Version::AssertNonOverlappingSet
unfoldable pub assert_non_overlapping_set : Comparator → ℕ → List Compaction → Option Bool
unfolding ranges_of_sets pivots_pass
assert_non_overlapping_set ucmp max_num [] = some true
assert_non_overlapping_set ucmp max_num (c ∷ cs) = do
  ranges ← ranges_of_sets ucmp max_num (c ∷ cs) [] []
  some (checked ucmp ranges)
