-- ===== src/Range/Order.antt =====
-- BinarySearch on ranges in order.
use Prim.Native.Nat.{Ordering}
use bl_nova_lsm.Common.{
  ℕ, ◌≤◌, ◌<◌, ◌≡◌, ◌≢◌, sym, ap, ◌∙◌, inl, inr, true, false, Option, none, some, List, length,
  get_elem?, arith, ltb, Bool-cases,
}
use bl_nova_lsm.Common.Ordered.{Ordered, Ordered-get, get_within, within_of_get}
use bl_nova_lsm.Coding.{Bytes}
use bl_nova_lsm.Keys.{Comparator, flip}
use bl_nova_lsm.Search.{below, above, inside}
use bl_nova_lsm.Search.Meaning.{Monotone, Answers, search-Answers}
use bl_nova_lsm.Range.{
  Range, is_smaller_than_lower, is_greater_than_upper, range_side, range_probe, binary_search,
}

-- Every range of a subrange includes its lower bound and excludes its upper one.
pub record IsHalfOpen (r : Range) : Type 0 where
  pub closed_below : r.lower_inclusive ≡ true
  pub open_above : r.upper_inclusive ≡ false

module _ (cmp : Comparator) where
  -- One range stands before another, or has the same bounds, as duplicates have.
  pub record Precedes (r s : Range) : Type 0 where
    pub left_half_open : IsHalfOpen r
    pub right_half_open : IsHalfOpen s
    pub lower_le : cmp.order r.lower s.lower ≢ Ordering.gt
    pub upper_le : cmp.order r.upper s.upper ≢ Ordering.gt

  -- Neither test of the search rejects the key.
  pub record Holds (r : Range) (key : Bytes) : Type 0 where
    pub not_smaller : is_smaller_than_lower cmp r key ≡ false
    pub not_greater : is_greater_than_upper cmp r key ≡ false

  -- The outcome of a search: no fault, and a range that holds the key, if there is one.
  abbrev pub Finds : List Range → Bytes → Option (Option ℕ) → Type 0
  Finds ranges key none = ⊥
  Finds ranges key (some none) = (i : ℕ) (r : Range) → get_elem? ranges i ≡ some r → Holds r key → ⊥
  Finds ranges key (some (some m)) = (r : Range) × (get_elem? ranges m ≡ some r) × Holds r key

  pub eq_right : (a b k : Bytes) → cmp.order a b ≡ Ordering.eq → cmp.order k a ≡ cmp.order k b
  eq_right a b k e = cmp.order_flip a k ∙ ap flip (cmp.eq_left a b k e) ∙ sym (cmp.order_flip b k)

  pub lt_of_lt_of_le :
      (k a b : Bytes)
      → cmp.order k a ≡ Ordering.lt
      → cmp.order a b ≢ Ordering.gt
      → cmp.order k b ≡ Ordering.lt
  lt_of_lt_of_le k a b h le = ground (arith, cmp.lt_trans k a b h, eq_right a b k)

  side_below :
      (key : Bytes) (r : Range)
      → IsHalfOpen r
      → range_side cmp key r ≡ below
      → cmp.order key r.lower ≡ Ordering.lt
  unfolding range_side
  side_below key r w e = ground arith

  side_above :
      (key : Bytes) (r : Range)
      → IsHalfOpen r
      → range_side cmp key r ≡ above
      → cmp.order key r.upper ≢ Ordering.lt
  unfolding range_side
  side_above key r w e = ground arith

  side_inside :
      (key : Bytes) (r : Range)
      → IsHalfOpen r
      → range_side cmp key r ≡ inside
      → (cmp.order key r.lower ≢ Ordering.lt) × (cmp.order key r.upper ≡ Ordering.lt)
  unfolding range_side
  side_inside key r w e = ground arith

  side-Holds : (key : Bytes) (r : Range) → range_side cmp key r ≡ inside → Holds r key
  unfolding range_side
  side-Holds key r e = ground arith

  Holds-side : (key : Bytes) (r : Range) → Holds r key → range_side cmp key r ≡ inside
  unfolding range_side
  Holds-side key r h = ground arith

  probe_at :
      (ranges : List Range) (key : Bytes) (i : ℕ) (r : Range)
      → get_elem? ranges i ≡ some r
      → range_probe cmp ranges key i ≡ some (range_side cmp key r)
  unfolding range_probe
  probe_at ranges key i r e = rw e

  -- Of two ranges in order the second does not hold a key that the first has on its right.
  later_side :
      (key : Bytes) (r s : Range)
      → Precedes r s
      → range_side cmp key r ≡ below
      → range_side cmp key s ≢ inside
  later_side key r s p e f =
      let lt = side_below key r p.left_half_open e in
      (side_inside key s p.right_half_open f).0 (lt_of_lt_of_le key r.lower s.lower lt p.lower_le)

  earlier_side :
      (key : Bytes) (r s : Range)
      → Precedes r s
      → range_side cmp key s ≡ above
      → range_side cmp key r ≢ inside
  earlier_side key r s p e f =
      side_above key s p.right_half_open e
        (lt_of_lt_of_le key r.upper s.upper (side_inside key r p.left_half_open f).1 p.upper_le)

  module _ (ranges : List Range) (key : Bytes) (ordered : Ordered Precedes ranges) where
    right_of_below :
        (i j : ℕ)
        → i ≤ j
        → j < length ranges
        → range_probe cmp ranges key i ≡ some below
        → range_probe cmp ranges key j ≢ some inside
    right_of_below i j le hj e f = elim (Bool-cases (ltb i j)) [
      | inl lt ↦
          let (r, er) = get_within ranges i (ground arith) in
          let (s, es) = get_within ranges j hj in
          later_side key r s (Ordered-get Precedes ranges i j r s ordered (ground arith) er es)
            (cc (probe_at ranges key i r er)) (cc (probe_at ranges key j s es))
      | inr ge ↦ let same : i ≡ j = ground arith in cc (ap (range_probe cmp ranges key) same)
    ]

    left_of_above :
        (i j : ℕ)
        → j ≤ i
        → i < length ranges
        → range_probe cmp ranges key i ≡ some above
        → range_probe cmp ranges key j ≢ some inside
    left_of_above i j le hi e f = elim (Bool-cases (ltb j i)) [
      | inl lt ↦
          let (r, er) = get_within ranges i hi in
          let (s, es) = get_within ranges j (ground arith) in
          earlier_side key s r (Ordered-get Precedes ranges j i s r ordered (ground arith) es er)
            (cc (probe_at ranges key i r er)) (cc (probe_at ranges key j s es))
      | inr ge ↦ let same : i ≡ j = ground arith in cc (ap (range_probe cmp ranges key) same)
    ]

    probe-Monotone : Monotone (range_probe cmp ranges key) (length ranges)
    probe-Monotone = record {
      side = λ i h.
          let (r, e) = get_within ranges i h in (range_side cmp key r, probe_at ranges key i r e);
      right_of_below = right_of_below;
      left_of_above = left_of_above;
    }

    Answers-Finds :
        (o : Option (Option ℕ))
        → Answers (range_probe cmp ranges key) (length ranges) o
        → Finds ranges key o
    Answers-Finds none a = a
    Answers-Finds (some none) a = λ i r e h.
        a i (within_of_get ranges i r e)
          (probe_at ranges key i r e ∙ ap (λ s. some s) (Holds-side key r h))
    Answers-Finds (some (some m)) a =
        let (r, e) = get_within ranges m a.0 in
        (r, e, side-Holds key r (cc (probe_at ranges key m r e, a.1)))

    -- On ranges that are in order BinarySearch, with indices without bound, ends without a fault; it names a range that holds
    -- the key, and if it names none then no range holds the key.
    pub binary_search-Finds : Finds ranges key (binary_search cmp ranges key)
    unfolding binary_search
    binary_search-Finds =
        Answers-Finds _ (search-Answers (range_probe cmp ranges key) (length ranges) probe-Monotone)
