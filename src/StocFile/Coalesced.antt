-- ===== src/StocFile/Coalesced.antt =====
-- What Persist appends to the file on disk.
use bl_nova_lsm.Common.{
  ℕ, zero, suc, ◌+◌, ◌≡◌, refl, sym, ap, List, [], ◌∷◌, ◌++◌, ◌==◌, append_assoc, append-nil,
  length, length-append, arith, Bool-cases, inl, inr,
}
use mathlib.Core.Path.{◌∙◌}
use bl_nova_lsm.StocFile.{BatchWrite}
use bl_nova_lsm.StocFile.Persist.{coalesce, range_bytes, append_ranges, total_size, ranges_of}

-- The bytes of the blocks, one block after the other.
abbrev pub block_bytes : List BatchWrite → List ℕ
block_bytes [] = []
block_bytes (w ∷ ws) = range_bytes w.offset w.size ++ block_bytes ws

abbrev pub total_blocks : List BatchWrite → ℕ
total_blocks [] = 0
total_blocks (w ∷ ws) = w.size + total_blocks ws

range_bytes-add : (o a b : ℕ) → range_bytes o (a + b) ≡ range_bytes o a ++ range_bytes (o + a) b
unfolding range_bytes
range_bytes-add o zero b =
    let same : 0 + b ≡ b = omega arith in
    let start : o + 0 ≡ o = omega arith in
    ap (range_bytes o) same ∙ sym (ap (λ x. range_bytes x b) start)
range_bytes-add o (suc a) b =
    let size : suc a + b ≡ suc (a + b) = omega arith in
    let start : o + 1 + a ≡ o + suc a = omega arith in
    ap (range_bytes o) size
    ∙ ap (◌∷◌ o)
        (range_bytes-add (o + 1) a b ∙ ap (λ x. range_bytes (o + 1) a ++ range_bytes x b) start)

pub length-range_bytes : (o n : ℕ) → length (range_bytes o n) ≡ n
unfolding range_bytes
length-range_bytes o zero = refl
length-range_bytes o (suc n) = ap suc (length-range_bytes (o + 1) n)

append_ranges-coalesce :
    (disk : List ℕ) (o n : ℕ) (ws : List BatchWrite)
    → append_ranges disk (coalesce o n ws) ≡ disk ++ (range_bytes o n ++ block_bytes ws)
unfolding append_ranges coalesce
append_ranges-coalesce disk o n [] = rw append-nil refl
append_ranges-coalesce disk o n (w ∷ ws) = elim (Bool-cases (o + n == w.offset)) [
  | inl joined ↦
      let same : o + n ≡ w.offset = ground arith in
      rw joined (
        append_ranges-coalesce disk o (n + w.size) ws
        ∙ ap (λ xs. disk ++ (xs ++ block_bytes ws)) (range_bytes-add o n w.size)
        ∙ ap (λ x. disk ++ ((range_bytes o n ++ range_bytes x w.size) ++ block_bytes ws)) same
        ∙ ap (λ xs. disk ++ xs) (append_assoc (range_bytes o n) _ (block_bytes ws)))
  | inr apart ↦ rw apart (
      append_ranges-coalesce (disk ++ range_bytes o n) w.offset w.size ws
      ∙ append_assoc disk (range_bytes o n) _)
]

-- Persist appends the bytes of the blocks one block after the other, in the order in which they were
-- collected, however it joins them, and the sizes that it adds up are those of the blocks.
pub append_ranges-ranges_of :
    (disk : List ℕ) (ws : List BatchWrite)
    → append_ranges disk (ranges_of ws) ≡ disk ++ block_bytes ws
unfolding append_ranges
append_ranges-ranges_of disk [] = sym (append-nil disk)
append_ranges-ranges_of disk (w ∷ ws) = append_ranges-coalesce disk w.offset w.size ws

total_size-coalesce :
    (o n : ℕ) (ws : List BatchWrite) → total_size (coalesce o n ws) ≡ n + total_blocks ws
unfolding coalesce
total_size-coalesce o n [] = refl
total_size-coalesce o n (w ∷ ws) = elim (Bool-cases (o + n == w.offset)) [
  | inl joined ↦ rw joined (omega (arith, total_size-coalesce o (n + w.size) ws))
  | inr apart ↦ rw apart (omega (arith, total_size-coalesce w.offset w.size ws))
]

pub total_size-ranges_of : (ws : List BatchWrite) → total_size (ranges_of ws) ≡ total_blocks ws
total_size-ranges_of [] = refl
total_size-ranges_of (w ∷ ws) = total_size-coalesce w.offset w.size ws

pub length-block_bytes : (ws : List BatchWrite) → length (block_bytes ws) ≡ total_blocks ws
length-block_bytes [] = refl
length-block_bytes (w ∷ ws) = omega (
  arith,
  length-append (range_bytes w.offset w.size) (block_bytes ws),
  length-range_bytes w.offset w.size,
  length-block_bytes ws,
)

pub total_blocks-end :
    (ws : List BatchWrite) (w : BatchWrite)
    → total_blocks (ws ++ (w ∷ [])) ≡ total_blocks ws + w.size
total_blocks-end [] w = omega arith
total_blocks-end (x ∷ ws) w = omega (arith, total_blocks-end ws w)
