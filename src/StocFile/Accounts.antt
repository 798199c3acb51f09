-- ===== src/StocFile/Accounts.antt =====
-- The sizes that a StoC file keeps, under each step.
use bl_nova_lsm.Common.{
  ℕ, ◌+◌, ◌%◌, ◌^◌, ◌≤◌, ◌<◌, ◌≡◌, refl, sym, ap, Bool, true, false, not, ◌&&◌, Option, none, some,
  List, [], ◌∷◌, ◌++◌, ◌==◌, length, arith, Bool-cases, inl, inr,
}
use mathlib.Core.Path.{◌∙◌}
use mathlib.Core.Option.{some-injective}
use bl_nova_lsm.Coding.{Bytes}
use bl_nova_lsm.Files.Replication.{FileInternalType}
use bl_nova_lsm.StocFile.{
  AllocatedBuf, StocFile, to_be_sealed, seal, is_nil, with_buf, mark_last, marked, or_this,
}
use bl_nova_lsm.StocFile.Coalesced.{total_blocks}

abbrev pub total_bufs : List AllocatedBuf → ℕ
total_bufs [] = 0
total_bufs (b ∷ bs) = b.size + total_bufs bs

pub total_bufs-end :
    (bs : List AllocatedBuf) (b : AllocatedBuf)
    → total_bufs (bs ++ (b ∷ [])) ≡ total_bufs bs + b.size
total_bufs-end [] b = omega arith
total_bufs-end (x ∷ bs) b = omega (arith, total_bufs-end bs b)

-- Each byte that was handed out is in a buffer that is not collected, in a block that is not yet
-- persisted, or on disk; and the handed out bytes fit in the buffer.
pub record IsAccounted (f : StocFile) : Type 0 where
  pub handed_out : f.file_size ≡ f.current_mem_offset
  pub within : f.current_mem_offset ≤ f.allocated_mem_size
  pub fits : f.allocated_mem_size < 2 ^ 32
  pub collected : f.current_disk_offset + total_bufs f.allocated_bufs ≡ f.file_size
  pub persisted : length f.disk + total_blocks f.written_mem_blocks ≡ f.current_disk_offset
  pub counted : f.persisting_cnt ≡ length f.written_mem_blocks
  pub buffered : f.sealed ≡ false → (mem : ℕ) × (f.backing_mem ≡ some mem)

nil_of {ℓ} : {A : Type ℓ} (xs : List A) → is_nil xs ≡ true → xs ≡ []
nil_of [] e = refl
nil_of (x ∷ xs) e = absurd (cc)

and_true : (a b : Bool) → (a && b) ≡ true → (a ≡ true) × (b ≡ true)
and_true true b e = (refl, e)
and_true false b e = absurd (cc)

not-true : (b : Bool) → not b ≡ true → b ≡ false
not-true true e = absurd (cc)
not-true false e = refl

-- The sealed file, which keeps all its sizes.
abbrev pub sealed_file : StocFile → StocFile
sealed_file f = record f { sealed = true; backing_mem = none }

-- Seal does nothing or seals.
pub data SealedFrom (f f' : StocFile) : Type 0 where
  same : f' ≡ f → SealedFrom f f'
  done : f' ≡ sealed_file f → SealedFrom f f'

-- Neither the assertion of Seal nor the one on the buffer fails.
pub seal-succeeds :
    (f : StocFile)
    → IsAccounted f
    → (f' : StocFile) × (seal f ≡ some f') × IsAccounted f' × SealedFrom f f'
unfolding seal
seal-succeeds f w = elim (Bool-cases (to_be_sealed f)) [
  | inr stays ↦ rw stays (f, refl, w, same refl)
  | inl go ↦
      let (empty, more) = and_true (is_nil f.allocated_bufs) _ go in
      let (full, more1) = and_true f.is_full _ more in
      let (idle, more2) = and_true (f.persisting_cnt == 0) _ more1 in
      let (mem, at) = w.buffered (not-true f.sealed more2) in
      let none_left : total_bufs f.allocated_bufs ≡ 0 =
        ap total_bufs (nil_of f.allocated_bufs empty) in
      let all_there : (f.current_disk_offset == f.file_size) ≡ true =
        same_sizes (omega (arith, w.collected, none_left)) in
      rw (go, all_there, at)
        (
          sealed_file f,
          refl,
          record {
            handed_out = w.handed_out;
            within = w.within;
            fits = w.fits;
            collected = w.collected;
            persisted = w.persisted;
            counted = w.counted;
            buffered = λ e. absurd (cc);
          },
          done refl,
        )
]
  where
    same_sizes : f.current_disk_offset ≡ f.file_size → (f.current_disk_offset == f.file_size) ≡ true
    same_sizes e = ground arith

pub with_buf-IsAccounted :
    (filename : Bytes) (size : ℕ) (t : FileInternalType) (f : StocFile)
    → f.current_mem_offset + size ≤ f.allocated_mem_size
    → IsAccounted f
    → IsAccounted (with_buf filename size t f)
with_buf-IsAccounted filename size t f room w =
    let no_wrap : (f.file_size + size) % 2 ^ 32 ≡ f.file_size + size =
      omega (arith, w.handed_out, w.fits, room) in
    record {
      handed_out = omega (arith, no_wrap, w.handed_out);
      within = room;
      fits = w.fits;
      collected = omega (arith, no_wrap, w.collected, total_bufs-end f.allocated_bufs _);
      persisted = w.persisted;
      counted = w.counted;
      buffered = w.buffered;
    }

mark_last-total :
    (off : ℕ) (bs bs' : List AllocatedBuf)
    → mark_last off bs ≡ some bs'
    → total_bufs bs' ≡ total_bufs bs
unfolding mark_last
mark_last-total off [] bs' e = absurd (cc)
mark_last-total off (b ∷ bs) bs' e = from (mark_last off bs) (λ xs. mark_last-total off bs xs) e
  where
    from :
        (o : Option (List AllocatedBuf))
        → ((xs : List AllocatedBuf) → o ≡ some xs → total_bufs xs ≡ total_bufs bs)
        → or_this off b bs o ≡ some bs'
        → total_bufs bs' ≡ b.size + total_bufs bs
    from (some xs) back =
        λ h. sym (ap total_bufs (some-injective _ _ h)) ∙ ap (λ n. b.size + n) (back xs refl)
    from none back = elim (Bool-cases (b.offset == off)) [
      | inl here ↦ rw here (λ h. sym (ap total_bufs (some-injective _ _ h)))
      | inr other ↦ rw other (λ h. absurd (cc))
    ]

pub marked-IsAccounted :
    (off : ℕ) (f : StocFile)
    → IsAccounted f
    → IsAccounted (marked f (mark_last off f.allocated_bufs)).1
marked-IsAccounted off f w =
    from (mark_last off f.allocated_bufs) (λ xs. mark_last-total off f.allocated_bufs xs)
  where
    from :
        (o : Option (List AllocatedBuf))
        → ((xs : List AllocatedBuf) → o ≡ some xs → total_bufs xs ≡ total_bufs f.allocated_bufs)
        → IsAccounted (marked f o).1
    from none h = w
    from (some xs) h = record {
      handed_out = w.handed_out;
      within = w.within;
      fits = w.fits;
      collected = omega (arith, w.collected, h xs refl);
      persisted = w.persisted;
      counted = w.counted;
      buffered = w.buffered;
    }
