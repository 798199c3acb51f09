-- ===== src/CompactionInputs/Wanted.antt =====
-- GetOverlappingInputs against a description of the files that it is to choose.
use Prim.Native.Nat.{Ordering}
use bl_nova_lsm.Common.{
  ℕ, zero, suc, ◌≡◌, refl, ap, Bool, true, false, not, ◌&&◌, some, List, [], ◌∷◌, ◌++◌,
  if◌then◌else◌, take, All, Bool-cases, inl, inr,
}
use mathlib.Core.Path.{◌∙◌}
use bl_nova_lsm.Common.Sets.{contains}
use bl_nova_lsm.Keys.{Comparator, flip}
use bl_nova_lsm.Keys.Order.{KeyLt, KeyUpto, gt_lt}
use bl_nova_lsm.Files.{FileMetaData}
use bl_nova_lsm.Levels.{is_lt, is_gt}
use bl_nova_lsm.Levels.Sorted.{HasKeys}
use bl_nova_lsm.Overlaps.{Bounds}
use bl_nova_lsm.Overlaps.Widened.{keys_of}
use bl_nova_lsm.CompactionInputs.{get_overlapping_inputs}
use bl_nova_lsm.CompactionInputs.Chosen.{keep, is_wanted, get_overlapping_inputs-take}

lt_of : (o : Ordering) → is_lt o ≡ true → o ≡ Ordering.lt
lt_of Ordering.lt e = refl
lt_of Ordering.eq e = absurd (cc)
lt_of Ordering.gt e = absurd (cc)

gt_of : (o : Ordering) → is_gt o ≡ true → o ≡ Ordering.gt
gt_of Ordering.lt e = absurd (cc)
gt_of Ordering.eq e = absurd (cc)
gt_of Ordering.gt e = refl

not_is : (c : Bool) → (c ≡ true → ⊥) → c ≡ false
not_is true h = absurd (h refl)
not_is false h = refl

-- The test of a file, as the conditions on its parts.
passed :
    (skipped contained before after starts ends : Bool)
    → (if skipped
        then false
        else if before
        then false
        else if after
        then false
        else if not contained
        then true
        else starts && ends)
      ≡ true
    → (skipped ≡ false)
      × (before ≡ false)
      × (after ≡ false)
      × (contained ≡ true → (starts ≡ true) × (ends ≡ true))
passed true c b a s e h = absurd (cc)
passed false c true a s e h = absurd (cc)
passed false c false true s e h = absurd (cc)
passed false false false false s e h = (refl, refl, refl, λ c. absurd (cc))
passed false true false false true true h = (refl, refl, refl, λ c. (refl, refl))
passed false true false false true false h = absurd (cc)
passed false true false false false e h = absurd (cc)

module _ (cmp : Comparator) (range : Bounds) (skip_files : List ℕ) (contained : Bool) where
  -- The file is not to be skipped and overlaps the range; where it is to be contained, it starts behind
  -- the start of the range and ends before its end.
  pub record IsWanted (f : FileMetaData) : Type 0 where
    pub in_question : contains skip_files f.number ≡ false
    pub not_before : KeyUpto cmp range.lower (keys_of f).upper
    pub not_after : KeyUpto cmp (keys_of f).lower range.upper
    pub within :
        contained ≡ true
        → KeyLt cmp range.lower (keys_of f).lower × KeyLt cmp (keys_of f).upper range.upper

  -- The first files of a list that are wanted, in their order, at most so many.
  pub data FirstWanted : ℕ → List FileMetaData → List FileMetaData → Type 0 where
    full : {fs : List FileMetaData} → FirstWanted 0 fs []
    ended : {n : ℕ} → FirstWanted n [] []
    takes :
        {n : ℕ} {f : FileMetaData} {fs chosen : List FileMetaData}
        → IsWanted f
        → FirstWanted n fs chosen
        → FirstWanted (suc n) (f ∷ fs) (f ∷ chosen)
    passes :
        {n : ℕ} {f : FileMetaData} {fs chosen : List FileMetaData}
        → ¬ IsWanted f
        → FirstWanted n fs chosen
        → FirstWanted n (f ∷ fs) chosen

  module _ (f : FileMetaData) where
    before_not :
        is_lt (cmp.order (keys_of f).upper range.lower) ≡ false
        → KeyUpto cmp range.lower (keys_of f).upper
    before_not e h =
        let e' : is_lt (cmp.order (keys_of f).upper range.lower) ≡ true = ap is_lt h in absurd (cc)

    after_not :
        is_gt (cmp.order (keys_of f).lower range.upper) ≡ false
        → KeyUpto cmp (keys_of f).lower range.upper
    after_not e h =
        let turned : cmp.order (keys_of f).lower range.upper ≡ Ordering.gt =
          cmp.order_flip range.upper (keys_of f).lower ∙ ap flip h in
        let e' : is_gt (cmp.order (keys_of f).lower range.upper) ≡ true = ap is_gt turned in
        absurd (cc)

    IsWanted-of : is_wanted cmp range skip_files contained f ≡ true → IsWanted f
    IsWanted-of e =
        let (q, b, a, w) =
          passed (contains skip_files f.number) contained
            (is_lt (cmp.order (keys_of f).upper range.lower))
            (is_gt (cmp.order (keys_of f).lower range.upper))
            (is_lt (cmp.order range.lower (keys_of f).lower))
            (is_gt (cmp.order range.upper (keys_of f).upper)) e in
        record {
          in_question = q;
          not_before = before_not b;
          not_after = after_not a;
          within = λ c. (
            lt_of (cmp.order range.lower (keys_of f).lower) (w c).0,
            gt_lt cmp range.upper (keys_of f).upper
                (gt_of (cmp.order range.upper (keys_of f).upper) (w c).1),
          );
        }

    wanted_of : IsWanted f → is_wanted cmp range skip_files contained f ≡ true
    wanted_of w =
        let b : is_lt (cmp.order (keys_of f).upper range.lower) ≡ false =
          not_is (is_lt (cmp.order (keys_of f).upper range.lower))
            (λ e. w.not_before (lt_of (cmp.order (keys_of f).upper range.lower) e)) in
        let a : is_gt (cmp.order (keys_of f).lower range.upper) ≡ false =
          not_is (is_gt (cmp.order (keys_of f).lower range.upper)) (λ e. w.not_after (
            gt_lt cmp (keys_of f).lower range.upper
              (gt_of (cmp.order (keys_of f).lower range.upper) e))) in
        rw (w.in_question, b, a)
          (elim (Bool-cases contained) [
            | inl c ↦
                let (s, e) = w.within c in
                let e' : cmp.order range.upper (keys_of f).upper ≡ Ordering.gt =
                  cmp.order_flip (keys_of f).upper range.upper ∙ ap flip e in
                rw (c, s, e') refl
            | inr c ↦ rw c refl
          ])

  first_kept :
      (n : ℕ) (fs : List FileMetaData)
      → FirstWanted n fs (take n (keep (is_wanted cmp range skip_files contained) fs))
  first_kept zero fs = full
  first_kept (suc n) [] = ended
  first_kept (suc n) (f ∷ fs) = elim (Bool-cases (is_wanted cmp range skip_files contained f)) [
    | inl e ↦ rw e (takes (IsWanted-of f e) (first_kept n fs))
    | inr e ↦ rw e (
        passes (λ w. absurd (clash (is_wanted cmp range skip_files contained f) (wanted_of f w) e))
          (first_kept (suc n) fs))
  ]
    where
      clash : (c : Bool) → c ≡ true → c ≡ false → ⊥
      clash c t n = absurd (cc)

  -- On files that have their keys, GetOverlappingInputs ends, and adds to the outputs the first files
  -- of the inputs, in their order and at most `limit`, that are not to be skipped and overlap the range,
  -- and that start behind the range's start and end before its end where containment is asked for.
  pub get_overlapping_inputs-FirstWanted :
      (inputs outputs : List FileMetaData) (limit : ℕ)
      → All HasKeys inputs
      → (chosen : List FileMetaData) × (get_overlapping_inputs cmp inputs range outputs limit
            skip_files contained
          ≡ some (outputs ++ chosen))
        × FirstWanted limit inputs chosen
  get_overlapping_inputs-FirstWanted inputs outputs limit h = (
    take limit (keep (is_wanted cmp range skip_files contained) inputs),
    get_overlapping_inputs-take cmp range skip_files contained inputs outputs limit h,
    first_kept limit inputs,
  )
