-- ===== src/InternalKey/Compare.antt =====
-- InternalKeyComparator::Compare against the order that its comment describes.
use Prim.Native.Nat.{Ordering}
use bl_nova_lsm.Common.{ltb, ◌==◌, if◌then◌else◌, ℕ, ◌+◌, ◌*◌, ◌≤◌, ◌≡◌, refl, some, [], arith}
use bl_nova_lsm.Keys.{Comparator}
use bl_nova_lsm.InternalKey.{
  type_number, ParsedInternalKey, pack_sequence_and_type, append_internal_key, by_number,
  unless_equal, compare_internal,
}
use bl_nova_lsm.InternalKey.Packed.{
  IsSequence, packed, packed-IsU64, type_number-le, number_of_key, user_key_of,
}

abbrev pub then_by : Ordering → Ordering → Ordering
then_by Ordering.lt next = Ordering.lt
then_by Ordering.gt next = Ordering.gt
then_by Ordering.eq next = next

-- The order of numbers.
abbrev pub increasing : ℕ → ℕ → Ordering
increasing m n = if m == n then Ordering.eq else if ltb m n then Ordering.lt else Ordering.gt

-- Increasing user keys, then decreasing sequence numbers, then decreasing types.
abbrev pub key_order : Comparator → ParsedInternalKey → ParsedInternalKey → Ordering
key_order cmp a b = then_by (cmp.order a.user_key b.user_key) (
    then_by (increasing b.sequence a.sequence)
      (increasing (type_number b.type) (type_number a.type)))

numbers_agree :
    (s t u v : ℕ)
    → t ≤ 1
    → v ≤ 1
    → by_number (t + s * 256) (v + u * 256) ≡ then_by (increasing u s) (increasing v t)
numbers_agree s t u v ht hv = ground arith

pub unless_equal-some : (o next : Ordering) → unless_equal o (some next) ≡ some (then_by o next)
unless_equal-some Ordering.lt next = refl
unless_equal-some Ordering.eq next = refl
unless_equal-some Ordering.gt next = refl

-- On keys that AppendInternalKey wrote with sequence numbers up to the greatest, Compare orders by
-- increasing user key, then by decreasing sequence number, then by decreasing type, whatever the
-- user's comparator.
pub compare_internal-key_order :
    (cmp : Comparator) (a b : ParsedInternalKey)
    → IsSequence a.sequence
    → IsSequence b.sequence
    → compare_internal cmp (append_internal_key [] a) (append_internal_key [] b)
      ≡ some (key_order cmp a b)
unfolding compare_internal append_internal_key
compare_internal-key_order cmp a b ha hb =
    let anum = pack_sequence_and_type a.sequence a.type in
    let bnum = pack_sequence_and_type b.sequence b.type in
    rw
      (
        user_key_of a.user_key anum,
        user_key_of b.user_key bnum,
        number_of_key a.user_key anum (packed-IsU64 a.sequence a.type ha),
        number_of_key b.user_key bnum (packed-IsU64 b.sequence b.type hb),
        packed a.sequence a.type ha,
        packed b.sequence b.type hb,
        numbers_agree a.sequence (type_number a.type) b.sequence (type_number b.type)
            (type_number-le a.type) (type_number-le b.type),
      )
      (unless_equal-some (cmp.order a.user_key b.user_key) _)
