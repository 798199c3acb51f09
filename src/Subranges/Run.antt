-- ===== src/Subranges/Run.antt =====
-- The backward loop of BinarySearchWithDuplicate.
use bl_nova_lsm.Common.{
  ℕ, zero, suc, ◌≤◌, ◌<◌, ◌≡◌, refl, sym, ap, ◌∙◌, true, false, some, arith, get_elem?, length, inl,
  inr, Bool-cases, ◌==◌,
}
use mathlib.Core.Option.{some-injective}
use bl_nova_lsm.Common.Ordered.{get_within}
use bl_nova_lsm.Keys.{Comparator}
use bl_nova_lsm.Subrange.{SubRange, subrange_equals}
use bl_nova_lsm.Subranges.{SubRanges, first_duplicate}

module _ (cmp : Comparator) where
  step_zero : (srs : SubRanges) (sr : SubRange) → first_duplicate cmp srs sr 0 ≡ 0
  unfolding first_duplicate
  step_zero srs sr = refl

  step_same :
      (srs : SubRanges) (sr o : SubRange) (i : ℕ)
      → get_elem? srs i ≡ some o
      → subrange_equals cmp o sr ≡ true
      → first_duplicate cmp srs sr (suc i) ≡ first_duplicate cmp srs sr i
  unfolding first_duplicate
  step_same srs sr o i e same = rw (e, first_duplicate) (rw same)

  step_other :
      (srs : SubRanges) (sr o : SubRange) (i : ℕ)
      → get_elem? srs i ≡ some o
      → subrange_equals cmp o sr ≡ false
      → first_duplicate cmp srs sr (suc i) ≡ suc i
  unfolding first_duplicate
  step_other srs sr o i e other = rw (e, first_duplicate) (rw other)

  at_same :
      (srs : SubRanges) (o s : SubRange) (i j : ℕ)
      → get_elem? srs i ≡ some o
      → j ≡ i
      → get_elem? srs j ≡ some s
      → o ≡ s
  at_same srs o s i j eo ji es = some-injective o s (sym eo ∙ ap (get_elem? srs) (sym ji) ∙ es)

  at_last :
      (srs : SubRanges) (sr o s : SubRange) (i j : ℕ)
      → get_elem? srs i ≡ some o
      → subrange_equals cmp o sr ≡ true
      → j ≡ i
      → get_elem? srs j ≡ some s
      → subrange_equals cmp s sr ≡ true
  at_last srs sr o s i j eo same ji es =
      ap (λ t. subrange_equals cmp t sr) (sym (at_same srs o s i j eo ji es)) ∙ same

  at_other :
      (srs : SubRanges) (sr o s : SubRange) (i k : ℕ)
      → get_elem? srs i ≡ some o
      → subrange_equals cmp o sr ≡ false
      → i ≡ k
      → get_elem? srs k ≡ some s
      → subrange_equals cmp s sr ≡ false
  at_other srs sr o s i k eo other ik es =
      ap (λ t. subrange_equals cmp t sr) (sym (at_same srs o s i k eo (sym ik) es)) ∙ other

  -- The backward loop passes duplicates only, and it stops at the first subrange or at one that
  -- is no duplicate.
  pub first_duplicate_run :
      (srs : SubRanges) (sr : SubRange) (id : ℕ)
      → id ≤ length srs
      → (first_duplicate cmp srs sr id ≤ id)
        × ((j : ℕ) (s : SubRange)
            → first_duplicate cmp srs sr id ≤ j
            → j < id
            → get_elem? srs j ≡ some s
            → subrange_equals cmp s sr ≡ true)
        × ((k : ℕ) (s : SubRange)
            → first_duplicate cmp srs sr id ≡ suc k
            → get_elem? srs k ≡ some s
            → subrange_equals cmp s sr ≡ false)
  first_duplicate_run srs sr zero h =
      rw (step_zero srs sr)
        (omega arith, λ j s l u e. absurd (omega arith), λ k s e f. absurd (omega arith))
  first_duplicate_run srs sr (suc i) h =
      let (o, eo) = get_within srs i h in
      elim (Bool-cases (subrange_equals cmp o sr)) [
        | inl same ↦
            let (le, run, start) = first_duplicate_run srs sr i (omega arith) in
            rw (step_same srs sr o i eo same) (
              omega arith,
              λ j s l u e. elim (Bool-cases (j == i)) [
                | inl last ↦ at_last srs sr o s i j eo same (ground arith) e
                | inr before ↦ run j s l (ground arith) e
              ],
              start,
            )
        | inr other ↦ rw (step_other srs sr o i eo other) (
          omega arith,
          λ j s l u e. absurd (omega arith),
          λ k s e f. at_other srs sr o s i k eo other (omega arith) f,
        )
      ]
