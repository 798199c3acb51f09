-- ===== src/Levels/Find.antt =====
-- What FindFile finds in a level.
use Prim.Native.Nat.{Ordering}
use bl_nova_lsm.Common.{
  ℕ, zero, suc, ◌+◌, ◌-◌, ◌/◌, ◌%◌, ◌^◌, ◌≤◌, ◌<◌, ◌≡◌, refl, sym, ap, true, false, Option, some,
  List, ltb, length, get_elem?, arith, Bool-cases, inl, inr,
}
use mathlib.Core.Path.{subst, ◌∙◌}
use mathlib.Core.Option.{some-injective}
use bl_nova_lsm.Common.Ordered.{get_within, within_of_get}
use bl_nova_lsm.Coding.{Bytes}
use bl_nova_lsm.Keys.{Comparator}
use bl_nova_lsm.InternalKey.Seen.{
  Seen, Shows, Before, Before-trans, seen_order, compare_internal-Shows,
}
use bl_nova_lsm.Files.{FileMetaData}
use bl_nova_lsm.Levels.{is_lt, find_loop, find_file}
use bl_nova_lsm.Levels.Sorted.{seen, IsLevel, keys_at, largest-Before}

module _ (cmp : Comparator) (files : List FileMetaData) (t : Seen) where
  -- The largest keys of exactly the files in front of `r` are before the target.
  pub record Parts (r : ℕ) : Type 0 where
    pub within : r ≤ length files
    pub before :
        (i : ℕ) (f : FileMetaData)
        → i < r
        → get_elem? files i ≡ some f
        → Before cmp (seen f.largest) t
    pub not_before :
        (i : ℕ) (f : FileMetaData)
        → r ≤ i
        → get_elem? files i ≡ some f
        → ¬ Before cmp (seen f.largest) t

  module _ (w : IsLevel cmp files) (small : length files < 2 ^ 31) (key : Bytes)
      (k : Shows key t) where
    abbrev Finds : Option ℕ → Type 0
    Finds o = (r : ℕ) × (o ≡ some r) × Parts r

    lt_Before : (o : Ordering) → is_lt o ≡ true → o ≡ Ordering.lt
    lt_Before Ordering.lt e = refl
    lt_Before Ordering.eq e = absurd (cc)
    lt_Before Ordering.gt e = absurd (cc)

    not_Before : (o : Ordering) → is_lt o ≡ false → ¬ (o ≡ Ordering.lt)
    not_Before o e h = absurd (cc)

    loop-Finds :
        (fuel left right : ℕ)
        → right - left < fuel
        → left ≤ right
        → right ≤ length files
        → ((i : ℕ) (f : FileMetaData)
            → i < left
            → get_elem? files i ≡ some f
            → Before cmp (seen f.largest) t)
        → ((i : ℕ) (f : FileMetaData)
            → right ≤ i
            → get_elem? files i ≡ some f
            → ¬ Before cmp (seen f.largest) t)
        → Finds (find_loop cmp files key fuel left right)
    unfolding find_loop
    loop-Finds zero left right h o s lo up = absurd (omega arith)
    loop-Finds (suc fuel) left right h o s lo up = elim (Bool-cases (ltb left right)) [
      | inr stop ↦ rw stop (
        right,
        refl,
        record { within = s; before = λ i f l. lo i f (ground arith); not_before = up },
      )
      | inl go ↦
          let l : left < right = ground arith in
          let mid : ℕ = (left + right) % 2 ^ 32 / 2 in
          let a : left ≤ mid = omega arith in
          let b : mid < right = omega arith in
          let (f, at) = get_within files mid (omega arith) in
          let compared =
            compare_internal-Shows cmp f.largest key (seen f.largest) t
              (keys_at cmp files w mid f at).1 k in
          rw (go, at, compared)
            (elim (Bool-cases (is_lt (seen_order cmp (seen f.largest) t))) [
              | inl less ↦ rw less (
                  loop-Finds fuel (mid + 1) right (omega arith) (omega arith) s
                    (λ i g il ig. elim (Bool-cases (ltb i mid)) [
                      | inl further ↦
                          Before-trans cmp (seen g.largest) (seen f.largest) t
                            (largest-Before cmp files w i mid g f (ground arith) ig at)
                            (lt_Before _ less)
                      | inr here ↦
                          let same : i ≡ mid = ground arith in
                          let e : f ≡ g =
                            some-injective f g (sym at ∙ (sym (ap (get_elem? files) same) ∙ ig)) in
                          subst (λ x. Before cmp (seen x.largest) t) e (lt_Before _ less)
                    ])
                    up)
              | inr more ↦ rw more (
                  loop-Finds fuel left mid (omega arith) a (omega arith) lo (λ i g il ig.
                    elim (Bool-cases (ltb mid i)) [
                      | inl further ↦ λ p. absurd (
                          not_Before _ more (
                            Before-trans cmp (seen f.largest) (seen g.largest) t
                              (largest-Before cmp files w mid i f g (ground arith) at ig) p))
                      | inr here ↦
                          let same : i ≡ mid = ground arith in
                          let e : f ≡ g =
                            some-injective f g (sym at ∙ (sym (ap (get_elem? files) same) ∙ ig)) in
                          subst (λ x. ¬ Before cmp (seen x.largest) t) e (not_Before _ more)
                    ]))
            ])
    ]

    -- On a level in order of fewer than 2^31 files, FindFile ends and gives the index of the first
    -- file whose largest key is not before the key, or the number of files.
    pub find_file-Parts : (r : ℕ) × (find_file cmp files key ≡ some r) × Parts r
    unfolding find_file
    find_file-Parts =
        loop-Finds (length files + 1) 0 (length files) (omega arith) (omega arith) (omega arith)
          (λ i f l. absurd (omega arith))
          (λ i f l e. absurd (omega (arith, within_of_get files i f e)))
