-- ===== src/Builder/InOrder.antt =====
-- The order of the files of a level that SaveTo fills.
use Prim.Native.Nat.{Ordering}
use bl_nova_lsm.Common.{
  ℕ, ◌<◌, ◌≡◌, refl, sym, true, some, List, [], ◌∷◌, ◌++◌, ltb, if◌then◌else◌, arith, bind-some,
  All,
}
use mathlib.Core.Path.{subst}
use mathlib.Core.Option.{some-injective}
use bl_nova_lsm.Common.Ordered.{Ordered}
use bl_nova_lsm.Keys.{Comparator}
use bl_nova_lsm.InternalKey.Seen.{Before, Before-trans, Before-upto, compare_internal-Shows}
use bl_nova_lsm.Files.{FileMetaData}
use bl_nova_lsm.Levels.{is_lt}
use bl_nova_lsm.Levels.Sorted.{seen, HasKeys, IsLevel}
use bl_nova_lsm.Builder.{Saving, last_before, maybe_add_file, add_files, split_base, merge_files}
use bl_nova_lsm.Builder.Members.{Adds, leaves, appends, maybe_add_file-Adds, split_base-parts}

module _ {ℓ κ} {A : Type ℓ} where
  pub All-end : (P : A → Type κ) (xs : List A) (x : A) → All P xs → P x → All P (xs ++ (x ∷ []))
  All-end P [] x h p = (p, tt)
  All-end P (y ∷ ys) x h p = (h.0, All-end P ys x h.1 p)

  pub All-split : (P : A → Type κ) (xs ys : List A) → All P (xs ++ ys) → All P xs × All P ys
  All-split P [] ys h = (tt, h)
  All-split P (x ∷ xs) ys h = let (a, b) = All-split P xs ys h.1 in ((h.0, a), b)

  pub Ordered-end :
      (R : A → A → Type κ) (xs : List A) (x : A)
      → Ordered R xs
      → All (λ y. R y x) xs
      → Ordered R (xs ++ (x ∷ []))
  Ordered-end R [] x o h = (tt, tt)
  Ordered-end R (y ∷ ys) x o h = (All-end (R y) ys x o.0 h.0, Ordered-end R ys x o.1 h.1)

module _ (cmp : Comparator) where
  -- A file that has its keys, the smallest not behind the largest.
  abbrev pub IsFile : FileMetaData → Type 0
  IsFile f = HasKeys f × ¬ Before cmp (seen f.largest) (seen f.smallest)

  tail : (f : FileMetaData) (fs : List FileMetaData) → IsLevel cmp (f ∷ fs) → IsLevel cmp fs
  tail f fs w = record { keys = w.keys.1; ranges = w.ranges.1; apart = w.apart.1 }

  is_lt_Before : (o : Ordering) → some (is_lt o) ≡ some true → o ≡ Ordering.lt
  is_lt_Before Ordering.lt e = refl
  is_lt_Before Ordering.eq e = absurd (cc)
  is_lt_Before Ordering.gt e = absurd (cc)

  all-Before :
      (fs : List FileMetaData) (f : FileMetaData)
      → IsLevel cmp fs
      → HasKeys f
      → last_before cmp fs f ≡ some true
      → All (λ g. Before cmp (seen g.largest) (seen f.smallest)) fs
  unfolding last_before
  all-Before [] f w k = λ e. tt
  all-Before (g ∷ []) f w k =
      rw
        (compare_internal-Shows cmp g.largest f.smallest (seen g.largest) (seen f.smallest)
          w.keys.0.1 k.0)
        (λ e. (is_lt_Before _ e, tt))
  all-Before (g ∷ h ∷ fs) f w k = λ e.
      let rest = all-Before (h ∷ fs) f (tail g (h ∷ fs) w) k e in
      let up =
        Before-upto cmp (seen g.largest) (seen h.smallest) (seen h.largest) w.apart.0.0
          w.ranges.1.0 in
      (Before-trans cmp (seen g.largest) (seen h.largest) (seen f.smallest) up rest.0, rest)

  grown :
      (fs : List FileMetaData) (f : FileMetaData)
      → IsLevel cmp fs
      → IsFile f
      → last_before cmp fs f ≡ some true
      → IsLevel cmp (fs ++ (f ∷ []))
  grown fs f w k e = record {
    keys = All-end HasKeys fs f w.keys k.0;
    ranges = All-end (λ f. ¬ Before cmp (seen f.largest) (seen f.smallest)) fs f w.ranges k.1;
    apart =
        Ordered-end (λ f g. Before cmp (seen f.largest) (seen g.smallest)) fs f w.apart
          (all-Before fs f w k.0 e);
  }

  module _ (level : ℕ) (deleted : List ℕ) (above : 0 < level) where
    one-IsLevel :
        (f : FileMetaData) (v v' : Saving)
        → Adds cmp level deleted f v v'
        → IsFile f
        → IsLevel cmp v.level_files
        → IsLevel cmp v'.level_files
    one-IsLevel f v v' (leaves gone same) k w =
        subst (λ (x : Saving). IsLevel cmp x.level_files) same w
    one-IsLevel f v v' (appends there ok files) k w =
        let higher : ltb 0 level ≡ true = ground arith in
        let last : last_before cmp v.level_files f ≡ some true =
          subst (λ b. (if b then last_before cmp v.level_files f else some true) ≡ some true) higher
            ok in
        subst (IsLevel cmp) (sym files) (grown v.level_files f w k last)

    pub add_files-IsLevel :
        (fs : List FileMetaData) (v v' : Saving)
        → add_files cmp level deleted fs v ≡ some v'
        → All IsFile fs
        → IsLevel cmp v.level_files
        → IsLevel cmp v'.level_files
    unfolding add_files
    add_files-IsLevel [] v v' e k w =
        subst (λ (x : Saving). IsLevel cmp x.level_files) (some-injective _ _ e) w
    add_files-IsLevel (f ∷ fs) v v' e k w =
        let (v1, at, e1) = bind-some (maybe_add_file cmp level deleted f v) _ _ e in
        add_files-IsLevel fs v1 v' e1 k.1
          (one-IsLevel f v v1 (maybe_add_file-Adds cmp level deleted f v v1 at) k.0 w)

    pub merge_files-IsLevel :
        (added base : List FileMetaData) (v v' : Saving)
        → merge_files cmp level deleted added base v ≡ some v'
        → All IsFile added
        → All IsFile base
        → IsLevel cmp v.level_files
        → IsLevel cmp v'.level_files
    unfolding merge_files
    merge_files-IsLevel [] base v v' e ka kb w = add_files-IsLevel base v v' e kb w
    merge_files-IsLevel (f ∷ added) base v v' e ka kb w =
        let (p, at, e1) = bind-some (split_base cmp f base) _ _ e in
        let (v1, at1, e2) = bind-some (add_files cmp level deleted p.0 v) _ _ e1 in
        let (v2, at2, e3) = bind-some (maybe_add_file cmp level deleted f v1) _ _ e2 in
        let (kl, kr) =
          All-split IsFile p.0 p.1
            (subst (All IsFile) (split_base-parts cmp level deleted f base p.0 p.1 at) kb) in
        let w1 = add_files-IsLevel p.0 v v1 at1 kl w in
        let w2 = one-IsLevel f v1 v2 (maybe_add_file-Adds cmp level deleted f v1 v2 at2) ka.0 w1 in
        merge_files-IsLevel added p.1 v2 v' e3 ka.1 kr w2
