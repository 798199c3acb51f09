-- ===== src/Range.antt =====
-- struct Range of include/leveldb/subrange.h and db/subrange.cpp: an interval of keys, its tests,
-- its message form, and the binary search over a vector of ranges. The statistics of a range
-- (ninserts, insertion_ratio, both doubles) steer the reorganisation of subranges only; no
-- operation here reads them, and they are left out.
pub mod Codec
pub mod Order
use Prim.Native.Nat.{Ordering}
use bl_nova_lsm.Common.{
  ℕ, ◌+◌, ◌-◌, ◌%◌, ◌^◌, Bool, true, false, not, ◌&&◌, ◌||◌, Option, none, some, List, [], ◌∷◌,
  ◌++◌, ◌==◌, if◌then◌else◌, ◌>>=◌, length, get_elem?,
}
use bl_nova_lsm.Coding.{
  Bytes, encode_str, decode_str, encode_bool, decode_bool, encode_fixed32, decode_fixed32,
}
use bl_nova_lsm.Keys.{Comparator, str_to_int}
use bl_nova_lsm.Search.{Side, below, above, inside, search}

pub record Range : Type 0 where
  pub lower : Bytes
  pub upper : Bytes
  pub lower_inclusive : Bool
  pub upper_inclusive : Bool
  pub num_duplicates : ℕ

-- Range::lower_int and Range::upper_int
abbrev pub lower_int : Range → ℕ
lower_int r = str_to_int r.lower

abbrev pub upper_int : Range → ℕ
upper_int r = str_to_int r.upper

abbrev bool_eq : Bool → Bool → Bool
bool_eq true b = b
bool_eq false b = not b

abbrev pub is_lt : Ordering → Bool
is_lt Ordering.lt = true
is_lt _ = false

abbrev pub is_eq : Ordering → Bool
is_eq Ordering.eq = true
is_eq _ = false

abbrev pub is_gt : Ordering → Bool
is_gt Ordering.gt = true
is_gt _ = false

-- Range::Encode
unfoldable pub encode_range : Range → Bytes
encode_range r =
    encode_str r.lower
    ++ (encode_str r.upper
        ++ (encode_bool r.lower_inclusive
            ++ (encode_bool r.upper_inclusive ++ encode_fixed32 r.num_duplicates)))

-- Range::Decode, on a range that was just made (`Range r = {}`, with empty bounds).
unfoldable pub decode_range : Bytes → Option (Range × Bytes)
decode_range input = do
  (lower, input1) ← decode_str [] input
  (upper, input2) ← decode_str [] input1
  (lower_inclusive, input3) ← decode_bool input2
  (upper_inclusive, input4) ← decode_bool input3
  (num_duplicates, rest) ← decode_fixed32 input4
  some (
    record {
      lower = lower;
      upper = upper;
      lower_inclusive = lower_inclusive;
      upper_inclusive = upper_inclusive;
      num_duplicates = num_duplicates;
    },
    rest,
  )

module _ (cmp : Comparator) where
  -- Range::Equals
  unfoldable pub range_equals : Range → Range → Bool
  range_equals r other =
      if not (bool_eq r.lower_inclusive other.lower_inclusive)
      then false
      else if not (bool_eq r.upper_inclusive other.upper_inclusive)
      then false
      else if not (r.num_duplicates == other.num_duplicates)
      then false
      else if not (is_eq (cmp.order r.lower other.lower))
      then false
      else is_eq (cmp.order r.upper other.upper)

  -- Range::IsSmallerThanLower
  unfoldable pub is_smaller_than_lower : Range → Bytes → Bool
  is_smaller_than_lower r key =
      let comp = cmp.order key r.lower in
      if is_lt comp then true else is_eq comp && not r.lower_inclusive

  -- Range::IsGreaterThanLower
  unfoldable pub is_greater_than_lower : Range → Bytes → Bool
  is_greater_than_lower r key =
      let comp = cmp.order key r.lower in
      if is_gt comp then true else is_eq comp && not r.lower_inclusive

  -- Range::IsGreaterThanUpper
  unfoldable pub is_greater_than_upper : Range → Bytes → Bool
  is_greater_than_upper r key =
      let comp = cmp.order key r.upper in
      if is_gt comp then true else is_eq comp && not r.upper_inclusive

  -- The tests that a round of BinarySearch makes of a range.
  unfoldable pub range_side : Bytes → Range → Side
  unfolding is_smaller_than_lower is_greater_than_upper
  range_side key r =
      if is_smaller_than_lower r key
      then below
      else if is_greater_than_upper r key
      then above
      else inside

  unfoldable pub range_probe : List Range → Bytes → ℕ → Option Side
  unfolding range_side
  range_probe ranges key m = (get_elem? ranges m >>= λ r. some (range_side key r))

  -- BinarySearch over std::vector<Range>; `some none` is the result false, with *range_id = -1.
  unfoldable pub binary_search : List Range → Bytes → Option (Option ℕ)
  unfolding range_probe search
  binary_search ranges key = search (range_probe ranges key) (length ranges)

-- Range::IsAPoint, in 64-bit arithmetic.
unfoldable pub range_is_a_point : Range → Bool
range_is_a_point r = (upper_int r + 2 ^ 64 - lower_int r) % 2 ^ 64 == 1
