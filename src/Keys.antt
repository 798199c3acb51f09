-- ===== src/Keys.antt =====
-- common/nova_common.h and .cpp: keys as decimal text, and the comparators of
-- include/leveldb/comparator.h and ltc/db_helper.h.
pub mod Text
pub mod Order
pub mod Examples
use Prim.Native.Nat.{Ordering, compare}
use bl_nova_lsm.Common.{
  ℕ, zero, suc, ◌+◌, ◌-◌, ◌*◌, ◌/◌, ◌%◌, ◌^◌, ◌≡◌, ◌||◌, List, [], ◌∷◌, ◌++◌, ltb, ◌==◌,
  if◌then◌else◌, arith,
}
use bl_nova_lsm.Coding.{Bytes}
use mathlib.Core.List.{reverse}

-- TERMINATER_CHAR and MSG_TERMINATER_CHAR
abbrev pub terminater : ℕ
terminater = b'!'

abbrev pub msg_terminater : ℕ
msg_terminater = 10

-- The loop of str_to_int: it stops at the terminater, at the end of the key, and at a character
-- that is no digit. It returns the uint64 and what it has not passed.
unfoldable pub scan_digits : ℕ → Bytes → ℕ × Bytes
scan_digits x [] = (x, [])
scan_digits x (c ∷ rest) =
    let more = scan_digits ((x * 10 + (c - b'0')) % 2 ^ 64) rest in
    if c == terminater || (ltb b'9' c || ltb c b'0') then (x, c ∷ rest) else more

-- str_to_int(key.data(), &out, key.size()) with `out` zero before the call, on a key that is not
-- empty (the string that an empty std::string points to gives the same zero).
unfoldable pub str_to_int : Bytes → ℕ
unfolding scan_digits
str_to_int [] = 0
str_to_int (c ∷ rest) = if c == msg_terminater then 0 else (scan_digits 0 (c ∷ rest)).0

-- The digits of int_to_str, lowest first; the count bounds the rounds of its do loop.
unfoldable pub digits_loop : ℕ → ℕ → Bytes
digits_loop zero x = (x % 10 + b'0') ∷ []
digits_loop (suc k) x =
    let rest = digits_loop k (x / 10) in
    if x / 10 == 0 then (x % 10 + b'0') ∷ [] else (x % 10 + b'0') ∷ rest

-- A uint64 has at most twenty digits. The second loop of the source swaps them end for end.
unfoldable pub int_to_str : ℕ → Bytes
unfolding digits_loop
int_to_str x = reverse (digits_loop 19 x) ++ (terminater ∷ [])

abbrev pub flip : Ordering → Ordering
flip Ordering.lt = Ordering.gt
flip Ordering.eq = Ordering.eq
flip Ordering.gt = Ordering.lt

-- A leveldb::Comparator orders keys; a negative, zero or positive result is lt, eq or gt.
pub record Comparator : Type 0 where
  pub order : Bytes → Bytes → Ordering
  pub order_flip : (a b : Bytes) → order b a ≡ flip (order a b)
  pub lt_trans :
      (a b c : Bytes) → order a b ≡ Ordering.lt → order b c ≡ Ordering.lt → order a c ≡ Ordering.lt
  pub eq_left : (a b c : Bytes) → order a b ≡ Ordering.eq → order a c ≡ order b c

-- YCSBKeyComparator::Compare
unfoldable pub ycsb_compare : Bytes → Bytes → Ordering
ycsb_compare a b =
    let ai = str_to_int a in
    let bi = str_to_int b in
    if ltb ai bi then Ordering.lt else if ltb bi ai then Ordering.gt else Ordering.eq

ycsb_compare_flip : (a b : Bytes) → ycsb_compare b a ≡ flip (ycsb_compare a b)
unfolding ycsb_compare
ycsb_compare_flip a b = ground arith

ycsb_compare-lt_trans :
    (a b c : Bytes)
    → ycsb_compare a b ≡ Ordering.lt
    → ycsb_compare b c ≡ Ordering.lt
    → ycsb_compare a c ≡ Ordering.lt
unfolding ycsb_compare
ycsb_compare-lt_trans a b c h k = ground arith

ycsb_compare-eq_left :
    (a b c : Bytes) → ycsb_compare a b ≡ Ordering.eq → ycsb_compare a c ≡ ycsb_compare b c
unfolding ycsb_compare
ycsb_compare-eq_left a b c h = ground arith

unfoldable pub ycsb_key_comparator : Comparator
unfolding ycsb_compare_flip ycsb_compare-lt_trans ycsb_compare-eq_left
ycsb_key_comparator = record {
  order = ycsb_compare;
  order_flip = ycsb_compare_flip;
  lt_trans = ycsb_compare-lt_trans;
  eq_left = ycsb_compare-eq_left;
}
