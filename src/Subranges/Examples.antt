-- ===== src/Subranges/Examples.antt =====
-- Three subranges, [1,5) and two duplicates of [5,6), under the integer comparator.
use bl_nova_lsm.Common.{
  ◌≤◌, ℕ, zero, suc, ◌+◌, ◌<◌, ◌≡◌, ap, sym, refl, true, false, some, [], ◌∷◌, arith, get_elem?,
}
use mathlib.Core.Path.{subst}
use mathlib.Core.Option.{some-injective}
use bl_nova_lsm.Coding.{Bytes}
use bl_nova_lsm.Keys.{ycsb_key_comparator, ycsb_compare, str_to_int}
use bl_nova_lsm.Range.{
  Range, range_equals, binary_search, is_smaller_than_lower, is_greater_than_upper,
}
use bl_nova_lsm.Range.Order.{Precedes, Finds, binary_search-Finds}
use bl_nova_lsm.Range.Codec
use bl_nova_lsm.Range.Codec.{decode_range-encode_range}
use bl_nova_lsm.Subrange.{
  SubRange, new_subrange, hull, smaller_than_lower, greater_than_upper, subrange_equals,
}
use bl_nova_lsm.Subranges.{SubRanges, search_with_duplicate}
use bl_nova_lsm.Subranges.Find.{InOrder, FindsSubrange}
use bl_nova_lsm.Subranges.Duplicates.{Group, IsGrouped, search_with_duplicate-Finds}

abbrev interval : ℕ → ℕ → ℕ → Range
interval low up n = record {
  lower = low ∷ [];
  upper = up ∷ [];
  lower_inclusive = true;
  upper_inclusive = false;
  num_duplicates = n;
}

abbrev wide : Range
wide = interval b'1' b'5' 0

abbrev point : Range
point = interval b'5' b'6' 2

abbrev of_range : Range → SubRange
of_range r = record new_subrange { tiny_ranges = r ∷ []; num_duplicates = r.num_duplicates }

abbrev three : SubRanges
three = of_range wide ∷ of_range point ∷ of_range point ∷ []

abbrev five : Bytes
five = b'5' ∷ []

found_five : search_with_duplicate ycsb_key_comparator three five (some 7) ≡ some (some 2)
unfolding search_with_duplicate ycsb_key_comparator ycsb_compare str_to_int smaller_than_lower
    greater_than_upper is_smaller_than_lower is_greater_than_upper subrange_equals
found_five = refl

three-Precedes_ww : Precedes ycsb_key_comparator wide point
unfolding ycsb_key_comparator ycsb_compare str_to_int
three-Precedes_ww = record {
  left_half_open = record { closed_below = refl; open_above = refl };
  right_half_open = record { closed_below = refl; open_above = refl };
  lower_le = λ e. cc;
  upper_le = λ e. cc;
}

three-Precedes_pp : Precedes ycsb_key_comparator point point
unfolding ycsb_key_comparator ycsb_compare str_to_int
three-Precedes_pp = record {
  left_half_open = record { closed_below = refl; open_above = refl };
  right_half_open = record { closed_below = refl; open_above = refl };
  lower_le = λ e. cc;
  upper_le = λ e. cc;
}

three-InOrder : InOrder ycsb_key_comparator three
unfolding hull
three-InOrder = record {
  hulls = wide ∷ point ∷ point ∷ [];
  hull_of_each = (refl, (refl, (refl, tt)));
  ordered = ((three-Precedes_ww, (three-Precedes_ww, tt)), ((three-Precedes_pp, tt), (tt, tt)));
}

abbrev GroupAt : ℕ → SubRange → Type 0
GroupAt i sr = (a : ℕ) × Group ycsb_key_comparator three sr i a

point-Group : (i : ℕ) → 1 ≤ i → i < 3 → GroupAt i (of_range point)
unfolding ycsb_key_comparator ycsb_compare str_to_int subrange_equals range_equals
point-Group i l r = (1, record { from = l; to = r; members = member; apart = front })
  where
    member :
        (j : ℕ)
        → j < 2
        → (s : SubRange) × (get_elem? three (1 + j) ≡ some s)
          × (subrange_equals ycsb_key_comparator s (of_range point) ≡ true)
    member zero h = (of_range point, refl, refl)
    member (suc zero) h = (of_range point, refl, refl)
    member (suc (suc j)) h = absurd (omega arith)

    front :
        (k : ℕ) (s : SubRange)
        → 1 ≡ suc k
        → get_elem? three k ≡ some s
        → subrange_equals ycsb_key_comparator s (of_range point) ≡ false
    front zero s e at =
        subst (λ x. subrange_equals ycsb_key_comparator x (of_range point) ≡ false)
          (some-injective _ s at) refl
    front (suc k) s e at = absurd (omega (arith, e))

three-IsGrouped : IsGrouped ycsb_key_comparator three
three-IsGrouped zero sr e n =
    absurd (n (ap (λ (s : SubRange). s.num_duplicates) (sym (some-injective _ sr e))))
three-IsGrouped (suc zero) sr e n =
    subst (GroupAt 1) (some-injective _ sr e) (point-Group 1 (omega arith) (omega arith))
three-IsGrouped (suc (suc zero)) sr e n =
    subst (GroupAt 2) (some-injective _ sr e) (point-Group 2 (omega arith) (omega arith))
three-IsGrouped (suc (suc (suc i))) sr e n = cc

search_with_duplicate-Finds_example :
    FindsSubrange ycsb_key_comparator three five
      (search_with_duplicate ycsb_key_comparator three five (some 7))
search_with_duplicate-Finds_example =
    search_with_duplicate-Finds ycsb_key_comparator three five (some 7) three-InOrder
      three-IsGrouped

binary_search-Finds_example :
    Finds ycsb_key_comparator
      (wide ∷ point ∷ [])
      five
      (binary_search ycsb_key_comparator (wide ∷ point ∷ []) five)
binary_search-Finds_example =
    binary_search-Finds ycsb_key_comparator (wide ∷ point ∷ []) five
      ((three-Precedes_ww, tt), (tt, tt))

wide-IsEncodable : Codec.IsEncodable wide
wide-IsEncodable = omega arith
