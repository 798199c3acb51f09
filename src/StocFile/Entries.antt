-- ===== src/StocFile/Entries.antt =====
-- The entries of the blocks that wait to be persisted.
use bl_nova_lsm.Common.{
  ◌≡◌, refl, ap, true, ◌||◌, some, List, [], ◌∷◌, All, Bool-cases, inl, inr, arith,
}
use mathlib.Core.Path.{subst}
use bl_nova_lsm.Coding.{Bytes}
use bl_nova_lsm.Files.Replication.{FileInternalType, file_data, file_metadata, file_parity}
use bl_nova_lsm.StocFile.{
  same_name, PersistStatus, BatchWrite, Blocks, StocFile, has_block, blocks_of, with_blocks,
}
use bl_nova_lsm.StocFile.Persist.{put_block, set_persisted}

same_name_refl : (n : Bytes) → same_name n n ≡ true
unfolding same_name
same_name_refl [] = refl
same_name_refl (x ∷ xs) = ground (arith, same_name_refl xs)

pub has_block-put_block :
    (bs : Blocks) (n : Bytes) (s : PersistStatus) → has_block (put_block n s bs) n ≡ true
unfolding has_block put_block
has_block-put_block [] n s = rw (same_name_refl n) refl
has_block-put_block ((m, t) ∷ bs) n s = elim (Bool-cases (same_name m n)) [
  | inl here ↦ rw (here, here) refl
  | inr other ↦ rw (other, other) (has_block-put_block bs n s)
]

-- A block that has an entry keeps one.
pub has_block-stays :
    (bs : Blocks) (n m : Bytes) (s : PersistStatus)
    → has_block bs m ≡ true
    → has_block (put_block n s bs) m ≡ true
unfolding has_block put_block
has_block-stays [] n m s h = absurd (cc)
has_block-stays ((k, t) ∷ bs) n m s h = elim (Bool-cases (same_name k n)) [
  | inl here ↦ rw here h
  | inr other ↦ rw other (elim (Bool-cases (same_name k m)) [
    | inl found ↦ rw found refl
    | inr missing ↦ rw missing (has_block-stays bs n m s (ground (arith, h, missing)))
  ])
]

pub set_persisted-succeeds :
    (bs : Blocks) (n : Bytes)
    → has_block bs n ≡ true
    → (bs' : Blocks) × (set_persisted n bs ≡ some bs')
      × ((m : Bytes) → has_block bs' m ≡ has_block bs m)
unfolding has_block set_persisted
set_persisted-succeeds [] n h = absurd (cc)
set_persisted-succeeds ((k, t) ∷ bs) n h = elim (Bool-cases (same_name k n)) [
  | inl here ↦ rw here (_, refl, λ m. refl)
  | inr other ↦
      let (rest, e, same) = set_persisted-succeeds bs n (ground (arith, h, other)) in
      rw (other, e) (_, refl, λ m. ap (λ x. same_name k m || x) (same m))
]

-- Each block that waits to be persisted has an entry.
abbrev pub HasEntry : StocFile → BatchWrite → Type 0
HasEntry f w = has_block (blocks_of w.internal_type f) w.sstable ≡ true

-- Two files with the same entries.
abbrev pub SameEntries : StocFile → StocFile → Type 0
SameEntries f g =
    (t : FileInternalType) (m : Bytes)
    → has_block (blocks_of t f) m ≡ true
    → has_block (blocks_of t g) m ≡ true

pub HasEntry-all :
    (f g : StocFile) (ws : List BatchWrite)
    → SameEntries f g
    → All (HasEntry f) ws
    → All (HasEntry g) ws
HasEntry-all f g [] s h = tt
HasEntry-all f g (w ∷ ws) s h = (s w.internal_type w.sstable h.0, HasEntry-all f g ws s h.1)

pub with_blocks-SameEntries :
    (t : FileInternalType) (bs : Blocks) (f : StocFile)
    → ((m : Bytes) → has_block (blocks_of t f) m ≡ true → has_block bs m ≡ true)
    → SameEntries f (with_blocks t bs f)
with_blocks-SameEntries file_data bs f h file_data m e = h m e
with_blocks-SameEntries file_data bs f h file_metadata m e = e
with_blocks-SameEntries file_data bs f h file_parity m e = e
with_blocks-SameEntries file_metadata bs f h file_data m e = e
with_blocks-SameEntries file_metadata bs f h file_metadata m e = h m e
with_blocks-SameEntries file_metadata bs f h file_parity m e = e
with_blocks-SameEntries file_parity bs f h file_data m e = e
with_blocks-SameEntries file_parity bs f h file_metadata m e = e
with_blocks-SameEntries file_parity bs f h file_parity m e = h m e

pub blocks_of-with_blocks :
    (t : FileInternalType) (bs : Blocks) (f : StocFile) → blocks_of t (with_blocks t bs f) ≡ bs
blocks_of-with_blocks file_data bs f = refl
blocks_of-with_blocks file_metadata bs f = refl
blocks_of-with_blocks file_parity bs f = refl

-- Only the entries matter.
pub SameEntries-as :
    (f g h : StocFile)
    → g.file_block_offset ≡ h.file_block_offset
    → g.file_meta_block_offset ≡ h.file_meta_block_offset
    → g.file_parity_block_offset ≡ h.file_parity_block_offset
    → SameEntries f g
    → SameEntries f h
SameEntries-as f g h d m p s file_data n e = subst (λ b. has_block b n ≡ true) d (s file_data n e)
SameEntries-as f g h d m p s file_metadata n e =
    subst (λ b. has_block b n ≡ true) m (s file_metadata n e)
SameEntries-as f g h d m p s file_parity n e =
    subst (λ b. has_block b n ≡ true) p (s file_parity n e)
