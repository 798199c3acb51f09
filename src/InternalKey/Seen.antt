-- ===== src/InternalKey/Seen.antt =====
-- InternalKeyComparator::Compare as a total order on the keys that are long enough to be compared.
use Prim.Native.Nat.{Ordering, compare}
use bl_nova_lsm.Common.{ℕ, ◌<◌, ◌≡◌, refl, sym, ap, some, [], arith}
use mathlib.Core.Path.{◌∙◌}
use bl_nova_lsm.Coding.{Bytes}
use bl_nova_lsm.Keys.{Comparator, flip}
use bl_nova_lsm.Keys.Order.{KeyUpto, lt_KeyUpto, not_lt_of_eq}
use bl_nova_lsm.InternalKey.{
  ParsedInternalKey, pack_sequence_and_type, append_internal_key, number_of, extract_user_key,
  by_number, compare_internal,
}
use bl_nova_lsm.InternalKey.Packed.{IsSequence, packed-IsU64, number_of_key, user_key_of}
use bl_nova_lsm.InternalKey.Compare.{then_by, unless_equal-some}

-- The two parts of a key that Compare looks at.
pub record Seen : Type 0 where
  pub user : Bytes
  pub number : ℕ

-- The key is of these parts.
pub record Shows (key : Bytes) (s : Seen) : Type 0 where
  pub user_at : extract_user_key key ≡ some s.user
  pub number_at : number_of key ≡ some s.number

abbrev pub seen_of : ParsedInternalKey → Seen
seen_of p = record { user = p.user_key; number = pack_sequence_and_type p.sequence p.type }

pub append_internal_key-Shows :
    (p : ParsedInternalKey) → IsSequence p.sequence → Shows (append_internal_key [] p) (seen_of p)
unfolding append_internal_key
append_internal_key-Shows p h =
    let num = pack_sequence_and_type p.sequence p.type in
    record {
      user_at = user_key_of p.user_key num;
      number_at = number_of_key p.user_key num (packed-IsU64 p.sequence p.type h);
    }

module _ (cmp : Comparator) where
  abbrev pub seen_order : Seen → Seen → Ordering
  seen_order a b = then_by (cmp.order a.user b.user) (by_number a.number b.number)

  pub compare_internal-Shows :
      (x y : Bytes) (a b : Seen)
      → Shows x a
      → Shows y b
      → compare_internal cmp x y ≡ some (seen_order a b)
  unfolding compare_internal
  compare_internal-Shows x y a b p q =
      rw (p.user_at, q.user_at, p.number_at, q.number_at)
        (unless_equal-some (cmp.order a.user b.user) _)

  pub order-eq_right : (a b c : Bytes) → cmp.order a b ≡ Ordering.eq → cmp.order c a ≡ cmp.order c b
  order-eq_right a b c h =
      cmp.order_flip a c ∙ (ap flip (cmp.eq_left a b c h) ∙ sym (cmp.order_flip b c))

  abbrev pub Before : Seen → Seen → Type 0
  Before a b = seen_order a b ≡ Ordering.lt

  -- The two ways in which a key is before another.
  pub data Cause (a b : Seen) : Type 0 where
    smaller : cmp.order a.user b.user ≡ Ordering.lt → Cause a b
    newer : cmp.order a.user b.user ≡ Ordering.eq → b.number < a.number → Cause a b

  pub Before-Cause : (a b : Seen) → Before a b → Cause a b
  Before-Cause a b = split (cmp.order a.user b.user) refl
    where
      split :
          (o : Ordering)
          → cmp.order a.user b.user ≡ o
          → then_by o (by_number a.number b.number) ≡ Ordering.lt
          → Cause a b
      split Ordering.lt e h = smaller e
      split Ordering.eq e h = newer e (ground arith)
      split Ordering.gt e h = absurd (cc)

  pub Cause-Before : (a b : Seen) → Cause a b → Before a b
  Cause-Before a b (smaller e) = rw e refl
  Cause-Before a b (newer e l) = rw e (ground arith)

  pub Before-trans : (a b c : Seen) → Before a b → Before b c → Before a c
  Before-trans a b c p q = both (Before-Cause a b p) (Before-Cause b c q)
    where
      both : Cause a b → Cause b c → Before a c
      both (smaller e) (smaller f) =
          Cause-Before a c (smaller (cmp.lt_trans a.user b.user c.user e f))
      both (smaller e) (newer f l) =
          Cause-Before a c (smaller (sym (order-eq_right b.user c.user a.user f) ∙ e))
      both (newer e l) (smaller f) =
          Cause-Before a c (smaller (cmp.eq_left a.user b.user c.user e ∙ f))
      both (newer e l) (newer f k) =
          Cause-Before a c (newer (cmp.eq_left a.user b.user c.user e ∙ f) (omega arith))

  abbrev pub Same : Seen → Seen → Type 0
  Same a b = (cmp.order a.user b.user ≡ Ordering.eq) × (a.number ≡ b.number)

  pub data Sorted (a b : Seen) : Type 0 where
    first : Before a b → Sorted a b
    same : Same a b → Sorted a b
    last : Before b a → Sorted a b

  pub sorted : (a b : Seen) → Sorted a b
  sorted a b = split (cmp.order a.user b.user) refl (compare a.number b.number) refl
    where
      split :
          (o : Ordering)
          → cmp.order a.user b.user ≡ o
          → (n : Ordering) → compare a.number b.number ≡ n
          → Sorted a b
      split Ordering.lt e n f = first (Cause-Before a b (smaller e))
      split Ordering.gt e n f =
          last (Cause-Before b a (smaller (cmp.order_flip a.user b.user ∙ ap flip e)))
      split Ordering.eq e Ordering.lt f =
          last (Cause-Before b a (newer (cmp.order_flip a.user b.user ∙ ap flip e) (ground arith)))
      split Ordering.eq e Ordering.eq f = same (e, ground arith)
      split Ordering.eq e Ordering.gt f = first (Cause-Before a b (newer e (ground arith)))

  pub Before-Same : (a b c : Seen) → Before a b → Same b c → Before a c
  Before-Same a b c p q = from (Before-Cause a b p)
    where
      from : Cause a b → Before a c
      from (smaller e) =
          Cause-Before a c (smaller (sym (order-eq_right b.user c.user a.user q.0) ∙ e))
      from (newer e l) =
          Cause-Before a c
            (newer (sym (order-eq_right b.user c.user a.user q.0) ∙ e) (omega (arith, q.1)))

  -- What is before `b` is before everything that is not itself before `b`.
  pub Before-upto : (a b c : Seen) → Before a b → ¬ Before c b → Before a c
  Before-upto a b c p q = from (sorted b c)
    where
      from : Sorted b c → Before a c
      from (first r) = Before-trans a b c p r
      from (same r) = Before-Same a b c p r
      from (last r) = absurd (q r)

  Same-Before : (a b c : Seen) → Same a b → Before b c → Before a c
  Same-Before a b c q p = from (Before-Cause b c p)
    where
      from : Cause b c → Before a c
      from (smaller e) = Cause-Before a c (smaller (cmp.eq_left a.user b.user c.user q.0 ∙ e))
      from (newer e l) =
          Cause-Before a c (newer (cmp.eq_left a.user b.user c.user q.0 ∙ e) (omega (arith, q.1)))

  -- What `b` is not before is before all that `b` is before.
  pub upto-Before : (a b c : Seen) → ¬ Before b a → Before b c → Before a c
  upto-Before a b c q p = from (sorted a b)
    where
      from : Sorted a b → Before a c
      from (first r) = Before-trans a b c r p
      from (same r) = Same-Before a b c r p
      from (last r) = absurd (q r)

  -- A key that is before another is of a user key that is not greater.
  pub Before-KeyUpto : (a b : Seen) → Before a b → KeyUpto cmp a.user b.user
  Before-KeyUpto a b p = from (Before-Cause a b p)
    where
      from : Cause a b → KeyUpto cmp a.user b.user
      from (smaller e) = lt_KeyUpto cmp a.user b.user e
      from (newer e l) = not_lt_of_eq cmp a.user b.user e

  -- A key that is not before another is of a user key that is not smaller.
  pub upto_of_not_Before : (a b : Seen) → ¬ Before a b → KeyUpto cmp b.user a.user
  upto_of_not_Before a b n h = n (Cause-Before a b (smaller h))
