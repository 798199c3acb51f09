-- ===== src/Subrange.antt =====
-- struct SubRange of include/leveldb/subrange.h and db/subrange.cpp: adjoining ranges that share
-- their memtables, or one of several duplicates of a range that holds a single key. `none` is the
-- abort of a failed NOVA_ASSERT, a read past a vector's end, or the result false of a decoder.
pub mod Codec
pub mod Threads
use bl_nova_lsm.Common.{
  ℕ, ◌+◌, ◌-◌, ◌%◌, ◌^◌, Bool, true, false, not, ◌&&◌, Option, none, some, List, [], ◌∷◌, ◌++◌, leb,
  ◌==◌, if◌then◌else◌, ◌>>=◌, ◌>>◌, guard, length,
}
use bl_nova_lsm.Coding.{Bytes, encode_fixed32, decode_fixed32}
use bl_nova_lsm.Coding.Lists.{encode_all, decode_all}
use bl_nova_lsm.Keys.{Comparator, str_to_int}
use bl_nova_lsm.Range.{
  Range, encode_range, decode_range, range_equals, is_smaller_than_lower, is_greater_than_lower,
  is_greater_than_upper, range_is_a_point, lower_int, upper_int,
}

pub record SubRange : Type 0 where
  pub tiny_ranges : List Range
  pub num_duplicates : ℕ
  pub start_tid : ℕ
  pub end_tid : ℕ
  pub merge_memtables_without_flushing : Bool
  pub decoded_subrange_id : ℕ

-- `SubRange sr = {};`
abbrev pub new_subrange : SubRange
new_subrange = record {
  tiny_ranges = [];
  num_duplicates = 0;
  start_tid = 0;
  end_tid = 0;
  merge_memtables_without_flushing = false;
  decoded_subrange_id = 0;
}

-- tiny_ranges[0] and tiny_ranges[tiny_ranges.size() - 1]
unfoldable pub first_range : List Range → Option Range
first_range [] = none
first_range (r ∷ rs) = some r

unfoldable pub last_range : List Range → Option Range
last_range [] = none
last_range (r ∷ []) = some r
last_range (r ∷ s ∷ rs) = last_range (s ∷ rs)

-- SubRange::Encode
unfoldable pub encode_subrange : ℕ → SubRange → Bytes
encode_subrange subrange_id sr =
    encode_fixed32 subrange_id
    ++ (encode_fixed32 sr.num_duplicates
        ++ (encode_fixed32 (length sr.tiny_ranges) ++ encode_all encode_range sr.tiny_ranges))

-- SubRange::Decode, on a new subrange.
unfoldable pub decode_subrange : Bytes → Option (SubRange × Bytes)
decode_subrange input = do
  (id, input1) ← decode_fixed32 input
  (num_duplicates, input2) ← decode_fixed32 input1
  (nranges, input3) ← decode_fixed32 input2
  (ranges, rest) ← decode_all decode_range nranges input3
  some (
    record new_subrange {
      tiny_ranges = ranges;
      num_duplicates = num_duplicates;
      decoded_subrange_id = id;
    },
    rest,
  )

-- The one range that SubRange::EncodeForCompaction writes for all the tiny ranges.
unfoldable pub hull : SubRange → Option Range
unfolding first_range last_range
hull sr = do
  first ← first_range sr.tiny_ranges
  last ← last_range sr.tiny_ranges
  some (record {
    lower = first.lower;
    upper = last.upper;
    lower_inclusive = first.lower_inclusive;
    upper_inclusive = last.upper_inclusive;
    num_duplicates = sr.num_duplicates;
  })

-- SubRange::EncodeForCompaction
unfoldable pub encode_for_compaction : ℕ → SubRange → Option Bytes
unfolding hull
encode_for_compaction subrange_id sr = do
  r ← hull sr
  some (encode_fixed32 subrange_id ++ (encode_fixed32 sr.num_duplicates ++ encode_range r))

-- SubRange::DecodeForCompaction, on a new subrange.
unfoldable pub decode_for_compaction : Bytes → Option (SubRange × Bytes)
decode_for_compaction input = do
  (id, input1) ← decode_fixed32 input
  (num_duplicates, input2) ← decode_fixed32 input1
  (r, rest) ← decode_range input2
  some (
    record new_subrange {
      tiny_ranges = r ∷ [];
      num_duplicates = num_duplicates;
      decoded_subrange_id = id;
    },
    rest,
  )

-- SubRange::GetCompactionThreadId: the thread, the flag, and the counter after fetch_add. The
-- counter is taken before it reaches the limit of its type.
unfoldable pub get_compaction_thread_id : SubRange → ℕ → Option (ℕ × Bool × ℕ)
get_compaction_thread_id sr rr_id =
    let flag = sr.merge_memtables_without_flushing in
    if sr.start_tid == sr.end_tid
    then some (sr.start_tid, flag, rr_id)
    else let index = rr_id % (sr.end_tid + 1 - sr.start_tid) in
      (guard (leb (sr.start_tid + index) sr.end_tid)
        >> some (sr.start_tid + index, flag, rr_id + 1))

-- SubRange::keys, the number of keys as an unsigned 32-bit pattern.
unfoldable pub keys : SubRange → Option ℕ
unfolding first_range last_range
keys sr = do
  first ← first_range sr.tiny_ranges
  last ← last_range sr.tiny_ranges
  some ((upper_int last + 2 ^ 64 - lower_int first) % 2 ^ 32)

-- SubRange::RangeEquals, which compares the bounds as numbers.
unfoldable pub bounds_equal : SubRange → SubRange → Option Bool
unfolding first_range last_range
bounds_equal sr other = do
  first ← first_range sr.tiny_ranges
  other_first ← first_range other.tiny_ranges
  last ← last_range sr.tiny_ranges
  other_last ← last_range other.tiny_ranges
  some (lower_int first == lower_int other_first && upper_int last == upper_int other_last)

module _ (cmp : Comparator) where
  -- The loop of SubRange::Equals over two vectors of one length.
  unfoldable pub ranges_equal : List Range → List Range → Bool
  ranges_equal [] others = true
  ranges_equal (r ∷ rs) [] = true
  ranges_equal (r ∷ rs) (o ∷ os) =
      let later = ranges_equal rs os in if not (range_equals cmp r o) then false else later

  -- SubRange::Equals
  unfoldable pub subrange_equals : SubRange → SubRange → Bool
  unfolding ranges_equal
  subrange_equals sr other =
      if not (sr.num_duplicates == other.num_duplicates)
      then false
      else if not (length sr.tiny_ranges == length other.tiny_ranges)
      then false
      else ranges_equal sr.tiny_ranges other.tiny_ranges

  -- SubRange::IsSmallerThanLower, IsGreaterThanLower and IsGreaterThanUpper
  unfoldable pub smaller_than_lower : SubRange → Bytes → Option Bool
  unfolding first_range
  smaller_than_lower sr key = do
    first ← first_range sr.tiny_ranges
    some (is_smaller_than_lower cmp first key)

  unfoldable pub greater_than_lower : SubRange → Bytes → Option Bool
  unfolding first_range
  greater_than_lower sr key = do
    first ← first_range sr.tiny_ranges
    some (is_greater_than_lower cmp first key)

  unfoldable pub greater_than_upper : SubRange → Bytes → Option Bool
  unfolding last_range
  greater_than_upper sr key = do
    last ← last_range sr.tiny_ranges
    some (is_greater_than_upper cmp last key)

single_is_a_point : List Range → Bool
single_is_a_point (r ∷ []) = range_is_a_point r
single_is_a_point _ = false

-- SubRange::IsAPoint
unfoldable pub is_a_point : SubRange → Bool
unfolding single_is_a_point range_is_a_point
is_a_point sr = single_is_a_point sr.tiny_ranges
