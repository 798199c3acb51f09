-- ===== src/Subranges/Equal.antt =====
-- The tests of a key on subranges that SubRange::Equals calls equal.
use bl_nova_lsm.Common.{◌≡◌, refl, ap, true, some, List, [], ◌∷◌, arith, length, ◌>>=◌}
use bl_nova_lsm.Coding.{Bytes}
use bl_nova_lsm.Keys.{Comparator}
use bl_nova_lsm.Range.{Range, range_equals, is_smaller_than_lower, is_greater_than_upper}
use bl_nova_lsm.Range.Order.{eq_right}
use bl_nova_lsm.Subrange.{
  SubRange, first_range, last_range, ranges_equal, subrange_equals, smaller_than_lower,
  greater_than_upper,
}

module _ (cmp : Comparator) (key : Bytes) where
  same_smaller :
      (r o : Range)
      → range_equals cmp r o ≡ true
      → is_smaller_than_lower cmp r key ≡ is_smaller_than_lower cmp o key
  unfolding range_equals is_smaller_than_lower
  same_smaller r o e = ground (arith, eq_right cmp r.lower o.lower key)

  same_greater :
      (r o : Range)
      → range_equals cmp r o ≡ true
      → is_greater_than_upper cmp r key ≡ is_greater_than_upper cmp o key
  unfolding range_equals is_greater_than_upper
  same_greater r o e = ground (arith, eq_right cmp r.upper o.upper key)

  first_same :
      (rs os : List Range)
      → length rs ≡ length os
      → ranges_equal cmp rs os ≡ true
      → (first_range rs >>= λ r. some (is_smaller_than_lower cmp r key))
        ≡ (first_range os >>= λ r. some (is_smaller_than_lower cmp r key))
  unfolding ranges_equal first_range
  first_same [] [] l e = refl
  first_same [] (o ∷ os) l e = absurd (omega arith)
  first_same (r ∷ rs) [] l e = absurd (omega arith)
  first_same (r ∷ rs) (o ∷ os) l e = ap (λ b. some b) (same_smaller r o (ground arith))

  last_same :
      (rs os : List Range)
      → length rs ≡ length os
      → ranges_equal cmp rs os ≡ true
      → (last_range rs >>= λ r. some (is_greater_than_upper cmp r key))
        ≡ (last_range os >>= λ r. some (is_greater_than_upper cmp r key))
  unfolding ranges_equal last_range
  last_same [] [] l e = refl
  last_same [] (o ∷ os) l e = absurd (omega arith)
  last_same (r ∷ rs) [] l e = absurd (omega arith)
  last_same (r ∷ []) (o ∷ []) l e = ap (λ b. some b) (same_greater r o (ground arith))
  last_same (r ∷ []) (o ∷ p ∷ os) l e = absurd (omega arith)
  last_same (r ∷ s ∷ rs) (o ∷ []) l e = absurd (omega arith)
  last_same (r ∷ s ∷ rs) (o ∷ p ∷ os) l e = last_same (s ∷ rs) (p ∷ os) (omega arith) (ground arith)

  lengths_equal :
      (sr other : SubRange)
      → subrange_equals cmp sr other ≡ true
      → (length sr.tiny_ranges ≡ length other.tiny_ranges)
        × (ranges_equal cmp sr.tiny_ranges other.tiny_ranges ≡ true)
  unfolding subrange_equals
  lengths_equal sr other e = ground arith

  pub smaller_equal :
      (sr other : SubRange)
      → subrange_equals cmp sr other ≡ true
      → smaller_than_lower cmp sr key ≡ smaller_than_lower cmp other key
  unfolding smaller_than_lower
  smaller_equal sr other e =
      let (l, q) = lengths_equal sr other e in first_same sr.tiny_ranges other.tiny_ranges l q

  pub greater_equal :
      (sr other : SubRange)
      → subrange_equals cmp sr other ≡ true
      → greater_than_upper cmp sr key ≡ greater_than_upper cmp other key
  unfolding greater_than_upper
  greater_equal sr other e =
      let (l, q) = lengths_equal sr other e in last_same sr.tiny_ranges other.tiny_ranges l q
