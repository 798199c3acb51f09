-- ===== src/Subranges.antt =====
-- class SubRanges of include/leveldb/subrange.h and db/subrange.cpp: the subranges of a database
-- in the order of their keys. The outer `none` of an operation is a failed NOVA_ASSERT, a read past
-- a vector's end, or the result false of a decoder.
pub mod Codec
pub mod Equal
pub mod Find
pub mod Run
pub mod Duplicates
pub mod Examples
use bl_nova_lsm.Common.{
  ℕ, zero, suc, ◌+◌, ◌%◌, Bool, true, false, not, ◌&&◌, Option, none, some, List, [], ◌∷◌, ◌++◌,
  ◌==◌, if◌then◌else◌, ◌>>=◌, ◌>>◌, guard, length, get_elem?, map,
}
use bl_nova_lsm.Coding.{Bytes, encode_fixed32, decode_fixed32}
use bl_nova_lsm.Coding.Lists.{decode_all}
use bl_nova_lsm.Keys.{Comparator}
use bl_nova_lsm.Search.{Side, below, above, inside, search}
use bl_nova_lsm.Subrange.{
  SubRange, new_subrange, encode_subrange, decode_subrange, subrange_equals, smaller_than_lower,
  greater_than_upper,
}

abbrev pub SubRanges : Type 0
SubRanges = List SubRange

-- The copy constructor leaves out the compaction threads, the flag and the decoded identifier.
unfoldable pub copy_subrange : SubRange → SubRange
copy_subrange other = record new_subrange {
  tiny_ranges = other.tiny_ranges;
  num_duplicates = other.num_duplicates;
}

unfoldable pub copy : SubRanges → SubRanges
unfolding copy_subrange
copy = map copy_subrange

-- The loop of SubRanges::Encode; a subrange's identifier is its position.
unfoldable pub encode_from : ℕ → SubRanges → Bytes
encode_from i [] = []
encode_from i (sr ∷ srs) = encode_subrange i sr ++ encode_from (i + 1) srs

-- SubRanges::Encode
unfoldable pub encode_subranges : SubRanges → Bytes
unfolding encode_from
encode_subranges srs = encode_fixed32 (length srs) ++ encode_from 0 srs

-- SubRanges::Decode, on an empty collection.
unfoldable pub decode_subranges : Bytes → Option (SubRanges × Bytes)
decode_subranges input = do
  (num_subranges, rest) ← decode_fixed32 input
  decode_all decode_subrange num_subranges rest

-- `seed` is what rand_r returns, or none for a null pointer.
abbrev pub offset : Option ℕ → ℕ → ℕ
offset none n = 0
offset (some random) n = random % n

module _ (cmp : Comparator) where
  -- The tests that a round of SubRanges::BinarySearch makes of a subrange.
  unfoldable pub subrange_side : Bytes → SubRange → Option Side
  subrange_side key sr = do
    smaller ← smaller_than_lower cmp sr key
    greater ← greater_than_upper cmp sr key
    some (if smaller then below else if greater then above else inside)

  unfoldable pub subrange_probe : SubRanges → Bytes → ℕ → Option Side
  unfolding subrange_side
  subrange_probe srs key m = (get_elem? srs m >>= λ sr. subrange_side key sr)

  -- SubRanges::BinarySearch
  unfoldable pub search_subranges : SubRanges → Bytes → Option (Option ℕ)
  unfolding subrange_probe search
  search_subranges srs key = search (subrange_probe srs key) (length srs)

  -- `while (i >= 0) { if (subranges[i].Equals(sr)) i--; else break; }`, and then i + 1; the number
  -- is i + 1 throughout.
  unfoldable pub first_duplicate : SubRanges → SubRange → ℕ → ℕ
  first_duplicate srs sr zero = zero
  first_duplicate srs sr (suc i) =
      let earlier = first_duplicate srs sr i in
      elim (get_elem? srs i) [
        | none ↦ suc i
        | some other ↦ if subrange_equals cmp other sr then earlier else suc i
      ]

  -- The last assertion of BinarySearchWithDuplicate.
  unfoldable pub check_holds : SubRange → Bytes → Option (Unit {0})
  check_holds sr key = do
    smaller ← smaller_than_lower cmp sr key
    greater ← greater_than_upper cmp sr key
    guard (not smaller && not greater)

  -- The choice among the duplicates of the subrange `id` that the search found.
  unfoldable pub choose_duplicate : SubRanges → Bytes → Option ℕ → ℕ → Option (Option ℕ)
  unfolding first_duplicate check_holds
  choose_duplicate srs key seed id = do
    sr ← get_elem? srs id
    let target = first_duplicate srs sr id + offset seed sr.num_duplicates
    if sr.num_duplicates == 0
        then some (some id)
        else (get_elem? srs target >>= λ chosen. check_holds chosen key >> some (some target))

  -- SubRanges::BinarySearchWithDuplicate
  unfoldable pub search_with_duplicate : SubRanges → Bytes → Option ℕ → Option (Option ℕ)
  unfolding search_subranges choose_duplicate
  search_with_duplicate srs key seed = do
    found ← search_subranges srs key
    elim found [ none ↦ some none | some id ↦ choose_duplicate srs key seed id ]
