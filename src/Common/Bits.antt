-- ===== src/Common/Bits.antt =====
-- `|` of disjoint fields and the masks of one byte, as arithmetic.
use Prim.Native.Nat.{ℕ, zero, suc, ◌+◌, ◌*◌, ◌/◌, ◌%◌, ◌^◌, ◌≤◌, ◌<◌, max, bit_and, bit_or}
use Prim.Native.Nat.{digits, bit_or-bitwise}
use mathlib.Core.Path.{◌≡◌, refl, sym, ap, ◌∙◌}
use mathlib.Core.Bool.{Bool, true, false}
use mathlib.Core.Logic.{inl, inr}
use native.Mathlib.Nat.{pow-suc}
use native.Mathlib.Omega.{arith}
use bl_nova_lsm.Common.Tests.{◌==◌, ltb, if◌then◌else◌, Bool-cases}

-- The bytes below `limit` that a test refuses are none: a table of 256 lines, made by evaluation.
refuses_none : (ℕ → Bool) → ℕ → Bool
refuses_none test zero = true
refuses_none test (suc limit) = if test limit then refuses_none test limit else false

refuses_none-at :
    (test : ℕ → Bool) (limit byte : ℕ)
    → byte < limit
    → refuses_none test limit ≡ true
    → test byte ≡ true
unfolding refuses_none
refuses_none-at test zero byte small = λ table. absurd (omega arith)
refuses_none-at test (suc limit) byte small = elim (Bool-cases (test limit)) [
  | inr refused ↦ rw refused (λ table. absurd (cc))
  | inl passed ↦ rw passed (λ table. elim (Bool-cases (ltb byte limit)) [
    | inl below ↦ refuses_none-at test limit byte (ground arith) table
    | inr top ↦ let same : limit ≡ byte = ground arith in ap test (sym same) ∙ passed
  ])
]

-- `|` by its digits from the lowest on, with a bound on how many there are.
abbrev digits_of_or : ℕ → ℕ → ℕ → ℕ
digits_of_or bound v w = digits (λ rest. rest) max bound v w

one_more_digit : (bound v w : ℕ) → v ≤ bound → digits_of_or (suc bound) v w ≡ digits_of_or bound v w
one_more_digit zero zero w small = refl
one_more_digit (suc bound) zero w small = refl
one_more_digit zero (suc v) w small = absurd (omega arith)
one_more_digit (suc bound) (suc v) w small =
    let higher = one_more_digit bound (suc v / 2) (w / 2) (omega arith) in omega (arith, higher)

enough_digits :
    (least bound v w : ℕ)
    → v ≤ least
    → least ≤ bound
    → digits_of_or bound v w ≡ digits_of_or least v w
enough_digits least zero v w small larger =
    let none : 0 ≡ least = omega arith in ap (λ k. digits_of_or k v w) none
enough_digits least (suc bound) v w small larger = elim (Bool-cases (ltb bound least)) [
  | inl reached ↦ let same : suc bound ≡ least = ground arith in ap (λ k. digits_of_or k v w) same
  | inr spare ↦
      let within : least ≤ bound = ground arith in
      one_more_digit bound v w (omega (arith, small, within))
      ∙ enough_digits least bound v w small within
]

pub zero-bit_or : (w : ℕ) → bit_or 0 w ≡ w
zero-bit_or w = bit_or-bitwise 0 w

-- The lowest digit apart, and the rest.
pub bit_or_step : (v w : ℕ) → bit_or v w ≡ bit_or (v / 2) (w / 2) * 2 + max (v % 2) (w % 2)
bit_or_step zero w =
    let none = zero-bit_or w in let half = zero-bit_or (w / 2) in omega (arith, none, half)
bit_or_step (suc v) w =
    let whole = bit_or-bitwise (suc v) w in
    let higher = bit_or-bitwise (suc v / 2) (w / 2) in
    let same = enough_digits (suc v / 2) v (suc v / 2) (w / 2) (omega arith) (omega arith) in
    omega (arith, whole, higher, same)

mul-two_pow-suc : (q k : ℕ) → q * 2 ^ suc k ≡ 2 * (q * 2 ^ k)
mul-two_pow-suc q k = omega (arith, ap (λ (t : ℕ). q * t) (pow-suc 2 k))

-- `r | (q << k)` is a sum when `r` fits `k` bits.
pub bit_or_fields : (k r q : ℕ) → r < 2 ^ k → bit_or r (q * 2 ^ k) ≡ r + q * 2 ^ k
bit_or_fields zero r q fits = ground (arith, zero-bit_or q)
bit_or_fields (suc k) r q fits = ground (
  arith,
  bit_or_step r (q * 2 ^ suc k),
  mul-two_pow-suc q k,
  pow-suc 2 k,
  bit_or_fields k (r / 2) q (omega (arith, pow-suc 2 k)),
)

bit_or-zero_below : (limit v : ℕ) → v < limit → bit_or v 0 ≡ v
bit_or-zero_below zero v small = absurd (omega arith)
bit_or-zero_below (suc limit) v small = elim (Bool-cases (v == 0)) [
  | inl none ↦
      let is_zero : v ≡ 0 = ground arith in ap (λ (t : ℕ). bit_or t 0) is_zero ∙ sym is_zero
  | inr digit ↦
      let positive : 0 < v = ground arith in
      let higher = bit_or-zero_below limit (v / 2) (omega (arith, positive, small)) in
      omega (arith, bit_or_step v 0, higher)
]

pub bit_or-zero : (v : ℕ) → bit_or v 0 ≡ v
bit_or-zero v = bit_or-zero_below (suc v) v (omega arith)

bit_or_even : (a m : ℕ) → bit_or a (2 * m) ≡ bit_or (a / 2) m * 2 + a % 2
bit_or_even a m =
    let half : 2 * m / 2 ≡ m = omega arith in
    let low : 2 * m % 2 ≡ 0 = omega arith in
    omega (arith, bit_or_step a (2 * m), ap (bit_or (a / 2)) half)

bit_or-one : (a : ℕ) → bit_or a 1 ≡ a / 2 * 2 + 1
bit_or-one a = omega (arith, bit_or_step a 1, bit_or-zero (a / 2))

bit_or_eight : (a : ℕ) → bit_or a 8 ≡ a / 16 * 16 + 8 + a % 8
bit_or_eight a = omega (
  arith,
  bit_or_even a 4,
  bit_or_even (a / 2) 2,
  bit_or_even (a / 2 / 2) 1,
  bit_or-one (a / 2 / 2 / 2),
)

-- The byte of `v | 128`: the seven low bits of `v` and the top bit.
pub set_top_bit : (v : ℕ) → bit_or v 128 % 256 ≡ v % 128 + 128
set_top_bit v = omega (
  arith,
  bit_or_even v 64,
  bit_or_even (v / 2) 32,
  bit_or_even (v / 2 / 2) 16,
  bit_or_even (v / 2 / 2 / 2) 8,
  bit_or_eight (v / 2 / 2 / 2 / 2),
)

low_bits_table : refuses_none (λ byte. bit_and byte 127 == byte % 128) 256 ≡ true
unfolding refuses_none
low_bits_table = refl

pub low_bits : (byte : ℕ) → byte < 256 → bit_and byte 127 ≡ byte % 128
low_bits byte small =
    let tested = refuses_none-at (λ b. bit_and b 127 == b % 128) 256 byte small low_bits_table in
    ground (arith, tested)

top_bit_table : refuses_none (λ byte. bit_and byte 128 == byte / 128 * 128) 256 ≡ true
unfolding refuses_none
top_bit_table = refl

pub top_bit : (byte : ℕ) → byte < 256 → bit_and byte 128 ≡ byte / 128 * 128
top_bit byte small =
    let tested =
      refuses_none-at (λ b. bit_and b 128 == b / 128 * 128) 256 byte small top_bit_table in
    ground (arith, tested)
