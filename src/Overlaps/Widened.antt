-- ===== src/Overlaps/Widened.antt =====
-- The bounds that a round of collecting files widens.
use Prim.Native.Nat.{Ordering}
use bl_nova_lsm.Common.{
  ℕ, ◌+◌, ◌≡◌, ◌≢◌, refl, sym, ap, Bool, some, List, [], ◌∷◌, ◌++◌, if◌then◌else◌, All, arith,
}
use mathlib.Core.Path.{◌∙◌}
use bl_nova_lsm.Coding.{Bytes}
use bl_nova_lsm.Keys.{Comparator, flip}
use bl_nova_lsm.Keys.Order.{KeyUpto, upto_refl, upto_trans, lt_KeyUpto, gt_lt}
use bl_nova_lsm.Files.{FileMetaData}
use bl_nova_lsm.Levels.{is_lt, is_gt}
use bl_nova_lsm.Levels.Sorted.{seen, HasKeys}
use bl_nova_lsm.Overlaps.{Bounds, bounds_of, widen}

-- The user keys of a file that has its keys.
abbrev pub keys_of : FileMetaData → Bounds
keys_of f = record { lower = (seen f.smallest).user; upper = (seen f.largest).user }

pub bounds_of-keys_of : (f : FileMetaData) → HasKeys f → bounds_of f ≡ some (keys_of f)
unfolding bounds_of
bounds_of-keys_of f h = rw (h.0.user_at, h.1.user_at) refl

-- How many of the files satisfy a test.
abbrev pub count : (FileMetaData → Bool) → List FileMetaData → ℕ
count p [] = 0
count p (f ∷ fs) = (if p f then 1 else 0) + count p fs

pub count-append :
    (p : FileMetaData → Bool) (fs gs : List FileMetaData)
    → count p (fs ++ gs) ≡ count p fs + count p gs
count-append p [] gs = omega arith
count-append p (f ∷ fs) gs = omega (arith, count-append p fs gs)

module _ (cmp : Comparator) where
  -- The first bounds lie within the second.
  abbrev pub Inside : Bounds → Bounds → Type 0
  Inside b r = KeyUpto cmp r.lower b.lower × KeyUpto cmp b.upper r.upper

  pub Inside-trans : (a b c : Bounds) → Inside a b → Inside b c → Inside a c
  Inside-trans a b c p q = (
    upto_trans cmp c.lower b.lower a.lower q.0 p.0,
    upto_trans cmp a.upper b.upper c.upper p.1 q.1,
  )

  pub Inside-refl : (a : Bounds) → Inside a a
  Inside-refl a = (upto_refl cmp a.lower, upto_refl cmp a.upper)

  -- What widens to the new file's keys and the old bounds holds both.
  lower_widens :
      (x y : Bytes)
      → KeyUpto cmp (if is_lt (cmp.order x y) then x else y) x
        × KeyUpto cmp (if is_lt (cmp.order x y) then x else y) y
  lower_widens x y = split (cmp.order x y) refl
    where
      split :
          (o : Ordering)
          → cmp.order x y ≡ o
          → KeyUpto cmp (if is_lt o then x else y) x × KeyUpto cmp (if is_lt o then x else y) y
      split Ordering.lt e = (upto_refl cmp x, lt_KeyUpto cmp x y e)
      split Ordering.eq e = ((λ h. absurd (cc)), upto_refl cmp y)
      split Ordering.gt e = ((λ h. absurd (cc)), upto_refl cmp y)

  upper_widens :
      (x y : Bytes)
      → KeyUpto cmp x (if is_gt (cmp.order x y) then x else y)
        × KeyUpto cmp y (if is_gt (cmp.order x y) then x else y)
  upper_widens x y = split (cmp.order x y) refl
    where
      not_less : (o : Ordering) → cmp.order x y ≡ o → o ≢ Ordering.gt → KeyUpto cmp x y
      not_less o e n h = n (sym e ∙ (cmp.order_flip y x ∙ ap flip h))

      split :
          (o : Ordering)
          → cmp.order x y ≡ o
          → KeyUpto cmp x (if is_gt o then x else y) × KeyUpto cmp y (if is_gt o then x else y)
      split Ordering.lt e = (not_less Ordering.lt e (λ h. absurd (cc)), upto_refl cmp y)
      split Ordering.eq e = (not_less Ordering.eq e (λ h. absurd (cc)), upto_refl cmp y)
      split Ordering.gt e = (upto_refl cmp x, lt_KeyUpto cmp y x (gt_lt cmp x y e))

  pub widen-Inside : (b r : Bounds) → Inside b (widen cmp b r) × Inside r (widen cmp b r)
  widen-Inside b r =
      let (l1, l2) = lower_widens b.lower r.lower in
      let (u1, u2) = upper_widens b.upper r.upper in ((l1, u1), (l2, u2))

  abbrev pub AllInside : Bounds → List FileMetaData → Type 0
  AllInside r = All (λ f. Inside (keys_of f) r)

  pub AllInside-mono :
      (r s : Bounds) (fs : List FileMetaData) → Inside r s → AllInside r fs → AllInside s fs
  AllInside-mono r s [] h a = tt
  AllInside-mono r s (f ∷ fs) h a =
      (Inside-trans (keys_of f) r s a.0 h, AllInside-mono r s fs h a.1)

  pub AllInside-end :
      (r : Bounds) (fs : List FileMetaData) (f : FileMetaData)
      → AllInside r fs
      → Inside (keys_of f) r
      → AllInside r (fs ++ (f ∷ []))
  AllInside-end r [] f a h = (h, tt)
  AllInside-end r (g ∷ fs) f a h = (a.0, AllInside-end r fs f a.1 h)
