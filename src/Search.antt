-- ===== src/Search.antt =====
-- The binary search that include/leveldb/subrange.h and db/subrange.cpp each write out over a
-- vector: `probe m` is what the two tests say of the element at `m`. The source's indices are of type
-- int, which is enough for vectors of fewer than 2^31 elements; here they have no bound.
pub mod Meaning
use bl_nova_lsm.Common.{ℕ, zero, suc, ◌+◌, ◌-◌, ◌/◌, Option, none, some, ltb, if◌then◌else◌, ◌>>=◌}

-- The key is smaller than the lower bound, greater than the upper bound, or neither.
pub data Side : Type 0 where
  below above inside : Side

abbrev pub turn : Side → Option (Option ℕ) → Option (Option ℕ) → ℕ → Option (Option ℕ)
turn below left right m = left
turn above left right m = right
turn inside left right m = some (some m)

-- `while (l <= r) { m = l + (r - l) / 2; … }`, where `hi` is r + 1, so that r may be -1. The outer
-- `none` is a fault of `probe` or the end of the fuel; `some none` is the result false.
pub search_loop : (ℕ → Option Side) → ℕ → ℕ → ℕ → Option (Option ℕ)
search_loop probe zero l hi = none
search_loop probe (suc fuel) l hi =
    let m = l + (hi - 1 - l) / 2 in
    let left = search_loop probe fuel l m in
    let right = search_loop probe fuel (m + 1) hi in
    let step = (probe m >>= λ side. turn side left right m) in if ltb l hi then step else some none

-- Each round shortens the interval, so one round more than the vector is long is enough.
unfoldable pub search : (ℕ → Option Side) → ℕ → Option (Option ℕ)
unfolding search_loop
search probe size = search_loop probe (size + 1) 0 size
