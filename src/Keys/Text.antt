-- ===== src/Keys/Text.antt =====
-- The text of keys: int_to_str, str_to_int and the order of YCSBKeyComparator.
use bl_nova_lsm.Common.{
  ℕ, zero, suc, ◌+◌, ◌-◌, ◌*◌, ◌/◌, ◌%◌, ◌^◌, ◌<◌, ◌≡◌, refl, ◌∙◌, ap, [], ◌∷◌, ◌++◌, arith,
  append_assoc, Bool-cases, ◌==◌, inl, inr,
}
use bl_nova_lsm.Coding.{Bytes, IsU64}
use Prim.Native.Nat.{compare}
use bl_nova_lsm.Keys.{ycsb_compare, terminater, scan_digits, str_to_int, digits_loop, int_to_str}
use mathlib.Core.List.{reverse, reverse-cons}

-- A digit is taken, and its value is added behind those read before.
scan_digit :
    (x d : ℕ) (rest : Bytes)
    → d < 10
    → x * 10 + d < 2 ^ 64
    → scan_digits x ((d + b'0') ∷ rest) ≡ scan_digits (x * 10 + d) rest
unfolding scan_digits
scan_digit x d rest hd fits =
    let value : (x * 10 + (d + 48 - 48)) % 2 ^ 64 ≡ x * 10 + d = omega arith in
    rw value (ground arith)

-- The digits of `x`, highest first, are read as `x` when nothing was read before.
scan_digits-digits :
    (k x : ℕ) (rest : Bytes)
    → x < 10 ^ suc k
    → IsU64 x
    → scan_digits 0 (reverse (digits_loop k x) ++ rest) ≡ scan_digits x rest
unfolding digits_loop
scan_digits-digits zero x rest hx fits =
    let value : 0 * 10 + x % 10 ≡ x = omega arith in
    scan_digit 0 (x % 10) rest (omega arith) (omega arith)
    ∙ ap (λ (t : ℕ). scan_digits t rest) value
scan_digits-digits (suc k) x rest hx fits = elim (Bool-cases (x / 10 == 0)) [
  | inl single ↦ rw single (
      scan_digit 0 (x % 10) rest (omega arith) (omega arith)
      ∙ ap (λ (t : ℕ). scan_digits t rest) (ground arith))
  | inr more ↦
      rw (more, reverse-cons (x % 10 + b'0') (digits_loop k (x / 10)), append_assoc)
        (scan_digits-digits k (x / 10) ((x % 10 + b'0') ∷ rest) (omega arith) (omega arith)
          ∙ scan_digit (x / 10) (x % 10) rest (omega arith) (omega arith)
          ∙ ap (λ (t : ℕ). scan_digits t rest) (omega arith))
]

str_to_int-scan_digits : (s : Bytes) → str_to_int s ≡ (scan_digits 0 s).0
unfolding str_to_int scan_digits
str_to_int-scan_digits [] = refl
str_to_int-scan_digits (c ∷ rest) = ground arith

at_terminater : (x : ℕ) (rest : Bytes) → scan_digits x (terminater ∷ rest) ≡ (x, terminater ∷ rest)
unfolding scan_digits
at_terminater x rest = refl

-- str_to_int reads back every uint64 that int_to_str wrote.
pub str_to_int-int_to_str : (x : ℕ) → IsU64 x → str_to_int (int_to_str x) ≡ x
unfolding int_to_str
str_to_int-int_to_str x h = rw (
  str_to_int-scan_digits (reverse (digits_loop 19 x) ++ (terminater ∷ [])),
  scan_digits-digits 19 x (terminater ∷ []) (omega arith) h,
  at_terminater x [],
)

-- On the keys that int_to_str writes, YCSBKeyComparator orders as the numbers do.
pub ycsb_compare-int_to_str :
    (x y : ℕ) → IsU64 x → IsU64 y → ycsb_compare (int_to_str x) (int_to_str y) ≡ compare x y
unfolding ycsb_compare
ycsb_compare-int_to_str x y hx hy =
    rw (str_to_int-int_to_str x hx, str_to_int-int_to_str y hy) (ground arith)
