-- ===== src/CompactionInputs/Ranges.antt =====
-- GetRange, and the last check of AssertNonOverlappingSet.
use Prim.Native.Nat.{Ordering}
use bl_nova_lsm.Common.{
  ℕ, ◌+◌, ◌≡◌, ◌≢◌, refl, ap, Bool, true, false, ◌||◌, some, List, [], ◌∷◌, ◌==◌, if◌then◌else◌,
  All,
}
use bl_nova_lsm.Keys.{Comparator, flip}
use bl_nova_lsm.Keys.Order.{KeyUpto}
use bl_nova_lsm.Files.{FileMetaData}
use bl_nova_lsm.Levels.{is_lt, is_gt}
use bl_nova_lsm.Levels.Sorted.{HasKeys}
use bl_nova_lsm.Overlaps.{Bounds, widen}
use bl_nova_lsm.Overlaps.Widened.{
  keys_of, bounds_of-keys_of, Inside, Inside-refl, Inside-trans, widen-Inside, AllInside,
}
use bl_nova_lsm.CompactionInputs.{
  Compaction, ranges_of_sets, assert_non_overlapping_set, get_range, widen_range, is_passed, passes,
  pivots_pass,
}

module _ (cmp : Comparator) where
  widen-least : (b r t : Bounds) → Inside cmp b t → Inside cmp r t → Inside cmp (widen cmp b r) t
  widen-least b r t p q =
      (lower (is_lt (cmp.order b.lower r.lower)), upper (is_gt (cmp.order b.upper r.upper)))
    where
      lower : (c : Bool) → KeyUpto cmp t.lower (if c then b.lower else r.lower)
      lower true = p.0
      lower false = q.0

      upper : (c : Bool) → KeyUpto cmp (if c then b.upper else r.upper) t.upper
      upper true = p.1
      upper false = q.1

  widen_range-Hull :
      (fs : List FileMetaData) (r : Bounds)
      → All HasKeys fs
      → (s : Bounds) × (widen_range cmp fs r ≡ some s)
        × Inside cmp r s
        × AllInside cmp s fs
        × ((t : Bounds) → Inside cmp r t → AllInside cmp t fs → Inside cmp s t)
  unfolding widen_range
  widen_range-Hull [] r h = (r, refl, Inside-refl cmp r, tt, λ t i a. i)
  widen_range-Hull (f ∷ fs) r h =
      let (s, e, inside, all, least) = widen_range-Hull fs (widen cmp (keys_of f) r) h.1 in
      let (file_in, range_in) = widen-Inside cmp (keys_of f) r in
      rw (bounds_of-keys_of f h.0) (
        s,
        e,
        Inside-trans cmp r (widen cmp (keys_of f) r) s range_in inside,
        (Inside-trans cmp (keys_of f) (widen cmp (keys_of f) r) s file_in inside, all),
        λ t i a. least t (widen-least (keys_of f) r t a.0 i) a.1,
      )

  -- On files that have their keys, of which there is one at least, GetRange ends and gives the least range
  -- that holds the keys of all files.
  pub get_range-Hull :
      (f : FileMetaData) (fs : List FileMetaData) (range : Bounds)
      → All HasKeys (f ∷ fs)
      → (s : Bounds) × (get_range cmp (f ∷ fs) range ≡ some s)
        × AllInside cmp s (f ∷ fs)
        × ((t : Bounds) → AllInside cmp t (f ∷ fs) → Inside cmp s t)
  unfolding get_range
  get_range-Hull f fs range h =
      let (s, e, inside, all, least) = widen_range-Hull fs (keys_of f) h.1 in
      rw (bounds_of-keys_of f h.0) (s, e, (inside, all), λ t a. least t a.0 a.1)

  -- The check passes over a range unless it starts where the pivot's range ends.
  abbrev pub Elsewhere : List Bounds → Bounds → Type 0
  Elsewhere rs p = All (λ r. cmp.order p.upper r.lower ≢ Ordering.eq) rs

  passed :
      (p : Bounds) (pivot i : ℕ) (r : Bounds)
      → cmp.order p.upper r.lower ≢ Ordering.eq
      → is_passed cmp p pivot i r ≡ true
  passed p pivot i r n =
      rw (cmp.order_flip p.upper r.lower) (by_order (i == pivot) (cmp.order p.upper r.lower) n)
    where
      by_order :
          (at : Bool) (o : Ordering) → o ≢ Ordering.eq → (at || (is_lt o || is_lt (flip o))) ≡ true
      by_order true o n = refl
      by_order false Ordering.lt n = refl
      by_order false Ordering.eq n = absurd (n refl)
      by_order false Ordering.gt n = refl

  passes-Elsewhere :
      (p : Bounds) (pivot i : ℕ) (rs : List Bounds)
      → Elsewhere rs p
      → passes cmp p pivot i rs ≡ true
  unfolding passes
  passes-Elsewhere p pivot i [] h = refl
  passes-Elsewhere p pivot i (r ∷ []) h = passed p pivot i r h.0
  passes-Elsewhere p pivot i (r ∷ r' ∷ rs) h =
      rw (passed p pivot i r h.0) (passes-Elsewhere p pivot (i + 2) rs h.1.1)

  pivots_pass-Elsewhere :
      (rs : List Bounds) (pivot : ℕ) (ps : List Bounds)
      → All (Elsewhere rs) ps
      → pivots_pass cmp rs pivot ps ≡ true
  unfolding pivots_pass
  pivots_pass-Elsewhere rs pivot [] h = refl
  pivots_pass-Elsewhere rs pivot (p ∷ ps) h =
      rw (passes-Elsewhere p pivot 0 rs h.0) (pivots_pass-Elsewhere rs (pivot + 1) ps h.1)

  -- AssertNonOverlappingSet accepts sets of compactions whatever the ranges are that it takes of them,
  -- overlapping ones too, unless a range starts at the very key where one of them ends.
  pub assert_non_overlapping_set-Elsewhere :
      (max_num : ℕ) (c : Compaction) (cs : List Compaction) (ranges : List Bounds)
      → ranges_of_sets cmp max_num (c ∷ cs) [] [] ≡ some (some ranges)
      → All (Elsewhere ranges) ranges
      → assert_non_overlapping_set cmp max_num (c ∷ cs) ≡ some true
  unfolding assert_non_overlapping_set
  assert_non_overlapping_set-Elsewhere max_num c cs ranges e h =
      rw e (ap some (pivots_pass-Elsewhere ranges 0 ranges h))
