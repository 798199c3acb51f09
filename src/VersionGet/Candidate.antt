-- ===== src/VersionGet/Candidate.antt =====
-- The file of a level that ForEachOverlapping takes, among all that may have the key.
use Prim.Native.Nat.{Ordering}
use bl_nova_lsm.Common.{
  ℕ, ◌≤◌, ◌<◌, ◌^◌, ◌≡◌, ◌⊎◌, refl, sym, ap, true, false, Option, none, some, List, ltb, ◌==◌,
  length, get_elem?, arith, Bool-cases, inl, inr,
}
use mathlib.Core.Path.{subst, ◌∙◌}
use mathlib.Core.Option.{some-injective}
use bl_nova_lsm.Common.Ordered.{All-get, Ordered-get, get_within, within_of_get}
use bl_nova_lsm.Coding.{Bytes}
use bl_nova_lsm.Keys.{Comparator}
use bl_nova_lsm.Keys.Order.{KeyUpto, upto_trans, eq_of_upto, not_lt_of_eq}
use bl_nova_lsm.InternalKey.Seen.{Seen, Shows, Before, Before-KeyUpto, upto_of_not_Before}
use bl_nova_lsm.Files.{FileMetaData}
use bl_nova_lsm.Levels.{is_lt}
use bl_nova_lsm.Levels.Sorted.{seen, IsLevel, keys_at}
use bl_nova_lsm.Levels.Find.{Parts, find_file-Parts}
use bl_nova_lsm.VersionGet.{level_candidate}

module _ (cmp : Comparator) (files : List FileMetaData) (w : IsLevel cmp files)
    (target : Seen) where
  -- The file may have an entry for the target: its range has the user key, and its largest key is not
  -- before the target.
  pub record MayHave (g : FileMetaData) : Type 0 where
    pub reaches : ¬ Before cmp (seen g.largest) target
    pub starts : KeyUpto cmp (seen g.smallest).user target.user

  -- `f` is the file `g`, or a file in front of it that ends with a version of the user key.
  abbrev pub FirstFor : FileMetaData → ℕ → Type 0
  FirstFor f i =
      (j : ℕ) × (get_elem? files j ≡ some f)
      × ((j ≡ i) ⊎ ((j < i) × (cmp.order (seen f.largest).user target.user ≡ Ordering.eq)))

  module _ (r : ℕ) (parts : Parts cmp files target r) (f : FileMetaData)
      (at : get_elem? files r ≡ some f) (i : ℕ) (g : FileMetaData) (ig : get_elem? files i ≡ some g)
      (may : MayHave g) where
    r_upto : r ≤ i
    r_upto = elim (Bool-cases (ltb i r)) [
      | inl less ↦ absurd (may.reaches (parts.before i g (ground arith) ig))
      | inr not_less ↦ ground arith
    ]

    f_reaches : ¬ Before cmp (seen f.largest) target
    f_reaches = parts.not_before r f (omega arith) at

    -- A file behind `f` starts behind it, so that `f` ends with a version of the user key.
    ends_with : r < i → cmp.order (seen f.largest).user target.user ≡ Ordering.eq
    ends_with l =
        let next : Before cmp (seen f.largest) (seen g.smallest) =
          Ordered-get (λ f g. Before cmp (seen f.largest) (seen g.smallest)) files r i f g w.apart l
            at ig in
        eq_of_upto cmp (seen f.largest).user target.user
          (upto_trans cmp (seen f.largest).user (seen g.smallest).user target.user
            (Before-KeyUpto cmp (seen f.largest) (seen g.smallest) next) may.starts)
          (upto_of_not_Before cmp (seen f.largest) target f_reaches)

    f_first : FirstFor f i
    f_first = elim (Bool-cases (ltb r i)) [
      | inl l ↦ (r, at, inr (ground arith, ends_with (ground arith)))
      | inr n ↦ (r, at, inl (omega (arith, r_upto, not_ltb n)))
    ]
      where
        not_ltb : ltb r i ≡ false → i ≤ r
        not_ltb n = ground arith

    f_starts : KeyUpto cmp (seen f.smallest).user target.user
    f_starts = elim (Bool-cases (ltb r i)) [
      | inl l ↦
          upto_trans cmp (seen f.smallest).user (seen f.largest).user target.user
            (upto_of_not_Before cmp (seen f.largest) (seen f.smallest) (
              All-get (λ f. ¬ Before cmp (seen f.largest) (seen f.smallest)) files r f w.ranges at))
            (not_lt_of_eq cmp (seen f.largest).user target.user (ends_with (ground arith)))
      | inr n ↦
          let same : i ≡ r = omega (arith, r_upto, not_ltb n) in
          let e : g ≡ f = some-injective g f (sym ig ∙ (ap (get_elem? files) same ∙ at)) in
          subst (λ x. KeyUpto cmp (seen x.smallest).user target.user) e may.starts
    ]
      where
        not_ltb : ltb r i ≡ false → i ≤ r
        not_ltb n = ground arith

  -- On a level in order of fewer than 2^31 files, the search for a key ends, and whenever some file may
  -- have an entry for the key it takes a file: that file, or one in front of it that ends with a
  -- version of the user key.
  pub level_candidate-first :
      (internal_key : Bytes)
      → length files < 2 ^ 31
      → Shows internal_key target
      → (c : Option FileMetaData) × (level_candidate cmp target.user internal_key files ≡ some c)
        × ((i : ℕ) (g : FileMetaData)
            → get_elem? files i ≡ some g
            → MayHave g
            → (f : FileMetaData) × (c ≡ some f) × FirstFor f i)
  unfolding level_candidate
  level_candidate-first internal_key small shown =
      let (r, e, parts) = find_file-Parts cmp files target w small internal_key shown in
      elim (Bool-cases (length files == 0)) [
        | inl empty ↦ rw empty (none, refl, λ i g ig may. absurd (none_there empty i g ig))
        | inr filled ↦
            rw (filled, e)
              (elim (Bool-cases (ltb r (length files))) [
                | inr past ↦ rw past (
                  none,
                  refl,
                  λ i g ig may. absurd (may.reaches (parts.before i g (all-Before past i g ig) ig)),
                )
                | inl inside ↦
                    let (f, at) = get_within files r (ground arith) in
                    rw (inside, at, (keys_at cmp files w r f at).0.user_at)
                      (elim (Bool-cases (is_lt (cmp.order target.user (seen f.smallest).user))) [
                        | inl starts_after ↦ rw starts_after (
                          none,
                          refl,
                          λ i g ig may.
                              absurd (f_starts r parts f at i g ig may (lt_of _ starts_after)),
                        )
                        | inr starts ↦
                            rw starts (
                              some f,
                              refl,
                              λ i g ig may. (f, refl, f_first r parts f at i g ig may),
                            )
                      ])
              ])
      ]
    where
      none_there :
          (length files == 0) ≡ true → (i : ℕ) (g : FileMetaData) → get_elem? files i ≡ some g → ⊥
      none_there empty i g ig =
          let z : length files ≡ 0 = ground arith in omega (arith, z, within_of_get files i g ig)

      all-Before :
          {r : ℕ}
          → ltb r (length files) ≡ false
          → (i : ℕ) (g : FileMetaData) → get_elem? files i ≡ some g
          → i < r
      all-Before {r} past i g ig =
          let z : length files ≤ r = ground arith in omega (arith, z, within_of_get files i g ig)

      lt_of : (o : Ordering) → is_lt o ≡ true → o ≡ Ordering.lt
      lt_of Ordering.lt e = refl
      lt_of Ordering.eq e = absurd (cc)
      lt_of Ordering.gt e = absurd (cc)
