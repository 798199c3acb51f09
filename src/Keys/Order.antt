-- ===== src/Keys/Order.antt =====
-- What the laws of a comparator give for keys that are not greater than others.
use Prim.Native.Nat.{Ordering}
use bl_nova_lsm.Common.{◌≡◌, refl, sym, ap}
use mathlib.Core.Path.{◌∙◌}
use bl_nova_lsm.Coding.{Bytes}
use bl_nova_lsm.Keys.{Comparator, flip}

module _ (cmp : Comparator) where
  abbrev pub KeyLt : Bytes → Bytes → Type 0
  KeyLt a b = cmp.order a b ≡ Ordering.lt

  -- `a` is not greater than `b`.
  abbrev pub KeyUpto : Bytes → Bytes → Type 0
  KeyUpto a b = ¬ KeyLt b a

  eq_right : (a b c : Bytes) → cmp.order a b ≡ Ordering.eq → cmp.order c a ≡ cmp.order c b
  eq_right a b c h = cmp.order_flip a c ∙ (ap flip (cmp.eq_left a b c h) ∙ sym (cmp.order_flip b c))

  pub lt_upto : (a b c : Bytes) → KeyLt a b → KeyUpto b c → KeyLt a c
  lt_upto a b c p q = split (cmp.order b c) refl
    where
      split : (o : Ordering) → cmp.order b c ≡ o → KeyLt a c
      split Ordering.lt e = cmp.lt_trans a b c p e
      split Ordering.eq e = sym (eq_right b c a e) ∙ p
      split Ordering.gt e = absurd (q (cmp.order_flip b c ∙ ap flip e))

  pub upto_lt : (a b c : Bytes) → KeyUpto a b → KeyLt b c → KeyLt a c
  upto_lt a b c q p = split (cmp.order a b) refl
    where
      split : (o : Ordering) → cmp.order a b ≡ o → KeyLt a c
      split Ordering.lt e = cmp.lt_trans a b c e p
      split Ordering.eq e = cmp.eq_left a b c e ∙ p
      split Ordering.gt e = absurd (q (cmp.order_flip a b ∙ ap flip e))

  pub upto_trans : (a b c : Bytes) → KeyUpto a b → KeyUpto b c → KeyUpto a c
  upto_trans a b c p q h = q (lt_upto c a b h p)

  pub upto_refl : (a : Bytes) → KeyUpto a a
  upto_refl a h = clash (cmp.order a a) h (cmp.order_flip a a)
    where
      clash : (o : Ordering) → o ≡ Ordering.lt → o ≡ flip o → ⊥
      clash Ordering.lt h e = absurd (cc)
      clash Ordering.eq h e = absurd (cc)
      clash Ordering.gt h e = absurd (cc)

  pub lt_KeyUpto : (a b : Bytes) → KeyLt a b → KeyUpto a b
  lt_KeyUpto a b p q = upto_refl a (cmp.lt_trans a b a p q)

  pub gt_lt : (a b : Bytes) → cmp.order a b ≡ Ordering.gt → KeyLt b a
  gt_lt a b h = cmp.order_flip a b ∙ ap flip h

  pub not_lt_of_eq : (a b : Bytes) → cmp.order a b ≡ Ordering.eq → KeyUpto a b
  not_lt_of_eq a b e h =
      let f : cmp.order a b ≡ Ordering.gt = cmp.order_flip b a ∙ ap flip h in absurd (cc)

  pub eq_of_upto : (a b : Bytes) → KeyUpto a b → KeyUpto b a → cmp.order a b ≡ Ordering.eq
  eq_of_upto a b p q = split (cmp.order a b) refl
    where
      split : (o : Ordering) → cmp.order a b ≡ o → cmp.order a b ≡ Ordering.eq
      split Ordering.lt e = absurd (q e)
      split Ordering.eq e = e
      split Ordering.gt e = absurd (p (gt_lt a b e))
