-- ===== src/Subranges/Duplicates.antt =====
-- SubRanges::BinarySearchWithDuplicate on subranges in order, with their duplicates.
use bl_nova_lsm.Common.{
  ℕ, ltb, ◌-◌, zero, suc, ◌+◌, ◌≤◌, ◌<◌, ◌≡◌, ◌≢◌, refl, sym, ap, true, false, Option, none, some,
  arith, get_elem?, ◌>>=◌, length, inl, inr, Bool-cases, ◌==◌,
}
use mathlib.Core.Path.{subst}
use bl_nova_lsm.Subranges.Run.{first_duplicate_run}
use bl_nova_lsm.Common.Ordered.{get_within, within_of_get}
use bl_nova_lsm.Coding.{Bytes}
use bl_nova_lsm.Keys.{Comparator}
use bl_nova_lsm.Range.{Range, is_smaller_than_lower, is_greater_than_upper}
use bl_nova_lsm.Range.Order.{Holds}
use bl_nova_lsm.Subrange.{SubRange, hull, smaller_than_lower, greater_than_upper, subrange_equals}
use bl_nova_lsm.Subranges.{
  SubRanges, first_duplicate, offset, check_holds, choose_duplicate, search_subranges,
  search_with_duplicate,
}
use bl_nova_lsm.Subranges.Equal.{smaller_equal, greater_equal}
use bl_nova_lsm.Subranges.Find.{InOrder, FindsSubrange, search_subranges-Finds, hull_at}

module _ (cmp : Comparator) where
  -- The places from `a` on, as many as the subrange says, are taken by its duplicates, one of them at
  -- `i`, and the place in front of them by another subrange.
  pub record Group (srs : SubRanges) (sr : SubRange) (i a : ℕ) : Type 0 where
    pub from : a ≤ i
    pub to : i < a + sr.num_duplicates
    pub members :
        (j : ℕ)
        → j < sr.num_duplicates
        → (s : SubRange) × (get_elem? srs (a + j) ≡ some s) × (subrange_equals cmp s sr ≡ true)
    pub apart :
        (k : ℕ) (s : SubRange)
        → a ≡ suc k
        → get_elem? srs k ≡ some s
        → subrange_equals cmp s sr ≡ false

  -- Duplicates stand side by side, as many as each of them says.
  abbrev pub IsGrouped : SubRanges → Type 0
  IsGrouped srs =
      (i : ℕ) (sr : SubRange)
      → get_elem? srs i ≡ some sr
      → sr.num_duplicates ≢ 0
      → (a : ℕ) × Group srs sr i a

  first_of_Group :
      (srs : SubRanges) (sr : SubRange) (i a : ℕ)
      → get_elem? srs i ≡ some sr
      → Group srs sr i a
      → first_duplicate cmp srs sr i ≡ a
  first_of_Group srs sr i a e g =
      let (le, run, start) = first_duplicate_run cmp srs sr i (inside (within_of_get srs i sr e)) in
      settle (first_duplicate cmp srs sr i) le run start
    where
      inside : i < length srs → i ≤ length srs
      inside l = omega arith

      clash :
          (s : SubRange) → subrange_equals cmp s sr ≡ true → subrange_equals cmp s sr ≡ false → ⊥
      clash s t n = absurd (cc)

      settle :
          (f : ℕ)
          → f ≤ i
          → ((j : ℕ) (s : SubRange)
              → f ≤ j
              → j < i
              → get_elem? srs j ≡ some s
              → subrange_equals cmp s sr ≡ true)
          → ((k : ℕ) (s : SubRange)
              → f ≡ suc k
              → get_elem? srs k ≡ some s
              → subrange_equals cmp s sr ≡ false)
          → f ≡ a
      settle f le run start = elim (Bool-cases (ltb f a)) [
        | inl before ↦ absurd (too_early (ground arith) a refl)
        | inr not_before ↦ elim (Bool-cases (ltb a f)) [
          | inl behind ↦ absurd (too_late (ground arith) f refl)
          | inr not_behind ↦ ground arith
        ]
      ]
        where
          too_early : f < a → (b : ℕ) → a ≡ b → ⊥
          too_early l zero e' = omega arith
          too_early l (suc k) e' =
              let below : k < i = omega (arith, g.from) in
              let (s, at) = get_within srs k (omega (arith, within_of_get srs i sr e)) in
              clash s (run k s (omega arith) below at) (g.apart k s e' at)

          too_late : a < f → (b : ℕ) → f ≡ b → ⊥
          too_late l zero e' = omega arith
          too_late l (suc k) e' =
              let (s, at, same) = g.members (k - a) (omega (arith, g.to)) in
              let place : a + (k - a) ≡ k = omega arith in
              clash s same (start k s e' (subst (λ x. get_elem? srs x ≡ some s) place at))

  smaller_hull :
      (sr : SubRange) (h : Range) (key : Bytes)
      → hull sr ≡ some h
      → smaller_than_lower cmp sr key ≡ some (is_smaller_than_lower cmp h key)
  unfolding hull smaller_than_lower is_smaller_than_lower
  smaller_hull sr h key e = ground arith

  greater_hull :
      (sr : SubRange) (h : Range) (key : Bytes)
      → hull sr ≡ some h
      → greater_than_upper cmp sr key ≡ some (is_greater_than_upper cmp h key)
  unfolding hull greater_than_upper is_greater_than_upper
  greater_hull sr h key e = ground arith

  Holds-equal :
      (s sr : SubRange) (g h : Range) (key : Bytes)
      → subrange_equals cmp s sr ≡ true
      → hull s ≡ some g
      → hull sr ≡ some h
      → Holds cmp h key
      → Holds cmp g key
  Holds-equal s sr g h key e eg eh w = record {
    not_smaller = cc (
      smaller_equal cmp key s sr e,
      smaller_hull s g key eg,
      smaller_hull sr h key eh,
      w.not_smaller,
    );
    not_greater = cc (
      greater_equal cmp key s sr e,
      greater_hull s g key eg,
      greater_hull sr h key eh,
      w.not_greater,
    );
  }

  check_hull :
      (s : SubRange) (g : Range) (key : Bytes)
      → hull s ≡ some g
      → Holds cmp g key
      → check_holds cmp s key ≡ some tt
  unfolding check_holds
  check_hull s g key e w =
      rw (smaller_hull s g key e, greater_hull s g key e, w.not_smaller, w.not_greater)

  offset_lt : (seed : Option ℕ) (n : ℕ) → n ≢ 0 → offset seed n < n
  offset_lt none n h = omega arith
  offset_lt (some random) n h = let pos : 0 < n = omega arith in omega arith

  choose-Finds :
      (srs : SubRanges) (key : Bytes) (seed : Option ℕ) (id : ℕ) (sr : SubRange) (h : Range)
      → InOrder cmp srs
      → IsGrouped srs
      → get_elem? srs id ≡ some sr
      → hull sr ≡ some h
      → Holds cmp h key
      → FindsSubrange cmp srs key (choose_duplicate cmp srs key seed id)
  unfolding choose_duplicate
  choose-Finds srs key seed id sr h order grouped e eh w =
      elim (Bool-cases (sr.num_duplicates == 0)) [
        | inl none_dup ↦ rw (e, none_dup) (sr, h, e, eh, w)
        | inr dup ↦
            let several : sr.num_duplicates ≢ 0 = ground arith in
            let (a, group) = grouped id sr e several in
            let place : a + offset seed sr.num_duplicates
                ≡ first_duplicate cmp srs sr id + offset seed sr.num_duplicates =
              ap (λ x. x + offset seed sr.num_duplicates)
                (sym (first_of_Group srs sr id a e group)) in
            let (s, at, eq) =
              group.members (offset seed sr.num_duplicates)
                (offset_lt seed sr.num_duplicates several) in
            let es = subst (λ x. get_elem? srs x ≡ some s) place at in
            let (g, _, eg) = hull_at srs order.hulls _ s order.hull_of_each es in
            let holds = Holds-equal s sr g h key eq eg eh w in
            rw (e, dup, es, check_hull s g key eg holds) (s, g, es, eg, holds)
      ]

  choose_after :
      (srs : SubRanges) (key : Bytes) (seed : Option ℕ) (found : Option (Option ℕ))
      → InOrder cmp srs
      → IsGrouped srs
      → FindsSubrange cmp srs key found
      → FindsSubrange cmp srs key (
          found >>= λ o. elim o [
            | none ↦ some none
            | some id ↦ choose_duplicate cmp srs key seed id
          ])
  choose_after srs key seed none order grouped f = f
  choose_after srs key seed (some none) order grouped f = f
  choose_after srs key seed (some (some id)) order grouped (sr, h, e, eh, w) =
      choose-Finds srs key seed id sr h order grouped e eh w

  -- On subranges in order whose duplicates stand side by side, as many as each of them says and with
  -- another subrange or none in front of them, the search with any random number ends
  -- without a fault or a failed assertion; it names a subrange whose bounds hold the key, and if
  -- it names none then no subrange's do.
  pub search_with_duplicate-Finds :
      (srs : SubRanges) (key : Bytes) (seed : Option ℕ)
      → InOrder cmp srs
      → IsGrouped srs
      → FindsSubrange cmp srs key (search_with_duplicate cmp srs key seed)
  unfolding search_with_duplicate
  search_with_duplicate-Finds srs key seed order grouped =
      choose_after srs key seed (search_subranges cmp srs key) order grouped
        (search_subranges-Finds cmp srs key order)
