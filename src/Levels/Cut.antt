-- ===== src/Levels/Cut.antt =====
-- Where a range of keys cuts a level, and what the check against all files answers then.
use Prim.Native.Nat.{Ordering}
use bl_nova_lsm.Common.{
  ℕ, zero, suc, ◌≤◌, ◌<◌, ◌≡◌, refl, sym, ap, Bool, true, false, not, Option, none, some, List, [],
  ◌∷◌, ltb, leb, if◌then◌else◌, ◌>>=◌, length, get_elem?, arith, Bool-cases, inl, inr,
}
use mathlib.Core.Path.{subst, ◌∙◌}
use mathlib.Core.Option.{some-injective}
use bl_nova_lsm.Common.Ordered.{All-get, Ordered-get}
use bl_nova_lsm.Coding.{Bytes}
use bl_nova_lsm.Keys.{Comparator}
use bl_nova_lsm.InternalKey.Seen.{
  Seen, Before, Cause, smaller, newer, Before-Cause, upto-Before, order-eq_right,
}
use bl_nova_lsm.Files.{FileMetaData}
use bl_nova_lsm.Levels.{is_lt, after_file, before_file, overlaps_any}
use bl_nova_lsm.Levels.Sorted.{seen, IsLevel, keys_at}

module _ (cmp : Comparator) (smallest largest : Option Bytes) where
  -- The files in front of `r` are all that end before the range, and from `r` on, the files behind
  -- one that starts after the range do so too.
  pub record Cut (files : List FileMetaData) (r : ℕ) : Type 0 where
    pub ends_before :
        (i : ℕ) (f : FileMetaData)
        → i < r
        → get_elem? files i ≡ some f
        → after_file cmp smallest f ≡ some true
    pub reaches :
        (i : ℕ) (f : FileMetaData)
        → r ≤ i
        → get_elem? files i ≡ some f
        → after_file cmp smallest f ≡ some false
    pub tested :
        (i : ℕ) (f : FileMetaData)
        → get_elem? files i ≡ some f
        → (b : Bool) × (before_file cmp largest f ≡ some b)
    pub stays :
        (i j : ℕ) (f g : FileMetaData)
        → i ≤ j
        → get_elem? files i ≡ some f
        → get_elem? files j ≡ some g
        → before_file cmp largest f ≡ some true
        → before_file cmp largest g ≡ some true

  abbrev pub at_index : List FileMetaData → ℕ → Option Bool
  at_index files r =
      if leb (length files) r
      then some false
      else (do f ← get_elem? files r; before ← before_file cmp largest f; some (not before))

  Cut-tail : (f : FileMetaData) (fs : List FileMetaData) (r : ℕ) → Cut (f ∷ fs) (suc r) → Cut fs r
  Cut-tail f fs r c = record {
    ends_before = λ i g l e. c.ends_before (suc i) g (omega arith) e;
    reaches = λ i g l e. c.reaches (suc i) g (omega arith) e;
    tested = λ i g e. c.tested (suc i) g e;
    stays = λ i j g h l e k. c.stays (suc i) (suc j) g h (omega arith) e k;
  }

  Cut-rest : (f : FileMetaData) (fs : List FileMetaData) → Cut (f ∷ fs) 0 → Cut fs 0
  Cut-rest f fs c = record {
    ends_before = λ i g l e. absurd (omega arith);
    reaches = λ i g l e. c.reaches (suc i) g (omega arith) e;
    tested = λ i g e. c.tested (suc i) g e;
    stays = λ i j g h l e k. c.stays (suc i) (suc j) g h (omega arith) e k;
  }

  none_overlaps :
      (fs : List FileMetaData)
      → Cut fs 0
      → ((i : ℕ) (g : FileMetaData)
          → get_elem? fs i ≡ some g
          → before_file cmp largest g ≡ some true)
      → overlaps_any cmp smallest largest fs ≡ some false
  unfolding overlaps_any
  none_overlaps [] c h = refl
  none_overlaps (f ∷ fs) c h =
      rw (c.reaches 0 f (omega arith) refl, h 0 f refl)
        (none_overlaps fs (Cut-rest f fs c) (λ i g e. h (suc i) g e))

  pub overlaps_any-at_index :
      (files : List FileMetaData) (r : ℕ)
      → Cut files r
      → overlaps_any cmp smallest largest files ≡ at_index files r
  unfolding overlaps_any
  overlaps_any-at_index [] r c = let past : leb 0 r ≡ true = ground arith in rw past refl
  overlaps_any-at_index (f ∷ fs) (suc r) c =
      let step : leb (suc (length fs)) (suc r) ≡ leb (length fs) r = ground arith in
      rw (c.ends_before 0 f (omega arith) refl, step)
        (overlaps_any-at_index fs r (Cut-tail f fs r c))
  overlaps_any-at_index (f ∷ fs) zero c =
      let (b, e) = c.tested 0 f refl in
      let inside : leb (suc (length fs)) 0 ≡ false = ground arith in
      rw (c.reaches 0 f (omega arith) refl, e, inside) (split b e)
    where
      split :
          (b : Bool)
          → before_file cmp largest f ≡ some b
          → (if b then overlaps_any cmp smallest largest fs else some true) ≡ some (not b)
      split true e =
          none_overlaps fs (Cut-rest f fs c) (λ i g k. c.stays 0 (suc i) f g (omega arith) refl k e)
      split false e = refl

module _ (cmp : Comparator) (files : List FileMetaData) (w : IsLevel cmp files) where
  pub before_tested :
      (largest : Option Bytes) (i : ℕ) (f : FileMetaData)
      → get_elem? files i ≡ some f
      → (b : Bool) × (before_file cmp largest f ≡ some b)
  unfolding before_file
  before_tested none i f e = (false, refl)
  before_tested (some k) i f e =
      (is_lt (cmp.order k (seen f.smallest).user), rw ((keys_at cmp files w i f e).0.user_at) refl)

  smallest-Before :
      (i j : ℕ) (f g : FileMetaData)
      → i < j
      → get_elem? files i ≡ some f
      → get_elem? files j ≡ some g
      → Before cmp (seen f.smallest) (seen g.smallest)
  smallest-Before i j f g l ef eg =
      upto-Before cmp (seen f.smallest) (seen f.largest) (seen g.smallest)
        (All-get (λ f. ¬ Before cmp (seen f.largest) (seen f.smallest)) files i f w.ranges ef)
        (Ordered-get (λ f g. Before cmp (seen f.largest) (seen g.smallest)) files i j f g w.apart l
          ef eg)

  lt_of : (o : Ordering) → is_lt o ≡ true → o ≡ Ordering.lt
  lt_of Ordering.lt e = refl
  lt_of Ordering.eq e = absurd (cc)
  lt_of Ordering.gt e = absurd (cc)

  lt_later :
      (k : Bytes) (a b : Seen)
      → cmp.order k a.user ≡ Ordering.lt
      → Before cmp a b
      → cmp.order k b.user ≡ Ordering.lt
  lt_later k a b h p = from (Before-Cause cmp a b p)
    where
      from : Cause cmp a b → cmp.order k b.user ≡ Ordering.lt
      from (smaller e) = cmp.lt_trans k a.user b.user h e
      from (newer e l) = sym (order-eq_right cmp a.user b.user k e) ∙ h

  pub before_stays :
      (largest : Option Bytes) (i j : ℕ) (f g : FileMetaData)
      → i ≤ j
      → get_elem? files i ≡ some f
      → get_elem? files j ≡ some g
      → before_file cmp largest f ≡ some true
      → before_file cmp largest g ≡ some true
  unfolding before_file
  before_stays none i j f g l ef eg = λ h. h
  before_stays (some k) i j f g l ef eg = elim (Bool-cases (ltb i j)) [
    | inr here ↦
        let same : i ≡ j = ground arith in
        let e : f ≡ g = some-injective f g (sym ef ∙ (ap (get_elem? files) same ∙ eg)) in
        subst (λ x. before_file cmp (some k) f ≡ some true → before_file cmp (some k) x ≡ some true)
          e (λ h. h)
    | inl further ↦
        rw ((keys_at cmp files w i f ef).0.user_at, (keys_at cmp files w j g eg).0.user_at)
          (λ h.
            let lt = lt_of _ (some-injective _ _ h) in
            let later =
              lt_later k (seen f.smallest) (seen g.smallest) lt
                (smallest-Before i j f g (ground arith) ef eg) in
            ap (λ o. some (is_lt o)) later)
  ]
