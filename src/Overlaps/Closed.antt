-- ===== src/Overlaps/Closed.antt =====
-- What ComputeOverlappingFilesForRange collects.
use bl_nova_lsm.Common.{
  ℕ, zero, suc, ◌+◌, ◌≤◌, ◌<◌, ◌≡◌, ◌⊎◌, refl, Bool, true, false, ◌||◌, Option, some, List, ◌∷◌,
  ltb, length, All, arith, Bool-cases, inl, inr,
}
use bl_nova_lsm.Keys.{Comparator}
use bl_nova_lsm.Files.{FileMetaData}
use bl_nova_lsm.Levels.Sorted.{HasKeys}
use bl_nova_lsm.Overlaps.{
  Bounds, OverlappingFileResult, overlap_found_new_tables, overlap_exceed_max,
  overlap_no_new_tables, Scan, compute_overlapping_in_range, Collected, is_exceeded, is_found,
  collect_loop, compute_overlapping_for_range,
}
use bl_nova_lsm.Overlaps.Widened.{bounds_of-keys_of}
use bl_nova_lsm.Overlaps.Round.{IsCollected, Ready, Round, next, next-Ready, too_many, nothing_new}
use bl_nova_lsm.Overlaps.Scanned.{ScanAfter, scan_files-after, IsOpen}

or_false : (a b : Bool) → (a || b) ≡ false → (a ≡ false) × (b ≡ false)
or_false true b e = absurd (cc)
or_false false b e = (refl, e)

is_open : (r : OverlappingFileResult) → is_exceeded r ≡ false → IsOpen r
is_open overlap_found_new_tables e h = absurd (cc)
is_open overlap_exceed_max e h = absurd (cc)
is_open overlap_no_new_tables e h = absurd (cc)

is_full : (r : OverlappingFileResult) → is_exceeded r ≡ true → r ≡ overlap_exceed_max
is_full overlap_found_new_tables e = absurd (cc)
is_full overlap_exceed_max e = refl
is_full overlap_no_new_tables e = absurd (cc)

found_some : (r : OverlappingFileResult) → is_found r ≡ true → r ≡ overlap_found_new_tables
found_some overlap_found_new_tables e = refl
found_some overlap_exceed_max e = absurd (cc)
found_some overlap_no_new_tables e = absurd (cc)

found_nothing :
    (r : OverlappingFileResult)
    → is_exceeded r ≡ false
    → is_found r ≡ false
    → r ≡ overlap_no_new_tables
found_nothing overlap_found_new_tables e f = absurd (cc)
found_nothing overlap_exceed_max e f = absurd (cc)
found_nothing overlap_no_new_tables e f = refl

module _ (cmp : Comparator) (max_num : ℕ) (l0 l1 : List FileMetaData) where
  abbrev Collects : Option Collected → Type 0
  Collects o = (c : Collected) × (o ≡ some c) × IsCollected cmp max_num l0 l1 c

  shorter_if_found :
      (range nb : Bounds) (files inputs : List FileMetaData) (s : Scan)
      → ScanAfter cmp max_num range files overlap_no_new_tables inputs nb s
      → is_found s.result ≡ true
      → length s.files < length files
  shorter_if_found range nb files inputs s w e = from (w.found (found_some s.result e))
    where
      from :
          (overlap_no_new_tables ≡ overlap_found_new_tables) ⊎ (length s.files < length files)
          → length s.files < length files
      from (inl h) = absurd (cc)
      from (inr h) = h

  fewer :
      (c : Collected) (s0 s1 : Scan)
      → Round cmp max_num c s0 s1
      → (is_found s0.result || is_found s1.result) ≡ true
      → length s0.files + length s1.files < length c.l0inputs + length c.l1inputs
  fewer c s0 s1 d e = elim (Bool-cases (is_found s0.result)) [
    | inl f ↦ omega (
      arith,
      shorter_if_found c.bounds c.bounds c.l0inputs c.inputs0 s0 d.after0 f,
      d.after1.no_longer,
    )
    | inr n ↦ omega (
      arith,
      shorter_if_found s0.new_bounds s0.new_bounds c.l1inputs c.inputs1 s1 d.after1 (cc),
      d.after0.no_longer,
    )
  ]

  collect_loop-Collects :
      (fuel : ℕ) (c : Collected)
      → length c.l0inputs + length c.l1inputs < fuel
      → Ready cmp max_num l0 l1 c
      → Collects (collect_loop cmp max_num fuel c)
  unfolding collect_loop compute_overlapping_in_range
  collect_loop-Collects zero c h w = absurd (omega arith)
  collect_loop-Collects (suc fuel) c h w =
      let (s0, e0, a0) =
        scan_files-after cmp max_num c.bounds c.l0inputs overlap_no_new_tables c.inputs0 c.bounds
          (λ k. absurd (cc)) w.keys0 in
      let (s1, e1, a1) =
        scan_files-after cmp max_num s0.new_bounds c.l1inputs overlap_no_new_tables c.inputs1
          s0.new_bounds (λ k. absurd (cc)) w.keys1 in
      let d : Round cmp max_num c s0 s1 = record { after0 = a0; after1 = a1 } in
      rw (e0, e1)
        (elim (Bool-cases (ltb max_num (length s0.inputs + length s1.inputs))) [
          | inl many ↦ rw many (_, refl, too_many cmp max_num l0 l1 c w s0 s1 d (ground arith))
          | inr few ↦ rw few (elim (Bool-cases (is_exceeded s0.result || is_exceeded s1.result)) [
            | inl full ↦ absurd (never_full s0 s1 d (ground arith) full)
            | inr going ↦
                let (n0, n1) = or_false _ _ going in
                rw going (elim (Bool-cases (is_found s0.result || is_found s1.result)) [
                  | inl more ↦
                      let (c', e, k) =
                        collect_loop-Collects fuel (next cmp max_num s0 s1)
                          (omega (arith, fewer c s0 s1 d more))
                          (next-Ready cmp max_num l0 l1 c w s0 s1 d (is_open s0.result n0)
                            (is_open s1.result n1)) in
                      rw more (c', e, k)
                  | inr done ↦
                      let (m0, m1) = or_false _ _ done in
                      rw done (
                        _,
                        refl,
                        nothing_new cmp max_num l0 l1 c w s0 s1 d (found_nothing s0.result n0 m0)
                            (found_nothing s1.result n1 m1),
                      )
                ])
          ])
        ])
    where
      never_full :
          (s0 s1 : Scan)
          → Round cmp max_num c s0 s1
          → length s0.inputs + length s1.inputs ≤ max_num
          → (is_exceeded s0.result || is_exceeded s1.result) ≡ true
          → ⊥
      never_full s0 s1 d l e = elim (Bool-cases (is_exceeded s0.result)) [
        | inl f ↦ omega (arith, d.after0.exceeded (is_full s0.result f))
        | inr n ↦ omega (arith, d.after1.exceeded (is_full s1.result (cc)))
      ]

-- On files that have their keys, ComputeOverlappingFilesForRange ends, and every file that it
-- collects lies within the bounds; unless it collects more files than the maximum, no file that it
-- leaves in either vector reaches into the bounds, and each file of a vector is either collected
-- from it or left in it, as often as it was there.
pub compute_overlapping_for_range-IsCollected :
    (cmp : Comparator) (max_num : ℕ) (f : FileMetaData) (l0 l1 : List FileMetaData)
    → All HasKeys (f ∷ l0)
    → All HasKeys l1
    → (c : Collected) × (compute_overlapping_for_range cmp max_num (f ∷ l0) l1 ≡ some c)
      × IsCollected cmp max_num (f ∷ l0) l1 c
unfolding compute_overlapping_for_range
compute_overlapping_for_range-IsCollected cmp max_num f l0 l1 h0 h1 =
    rw (bounds_of-keys_of f h0.0) (
      collect_loop-Collects cmp max_num (f ∷ l0) l1 (length (f ∷ l0) + length l1 + 1) _
        (omega arith)
        record {
          keys0 = h0;
          keys1 = h1;
          within0 = tt;
          within1 = tt;
          whole0 = λ p. omega arith;
          whole1 = λ p. omega arith;
        })
