-- ===== src/StocFile/Reached.antt =====
-- What holds of a StoC file after any steps.
use bl_nova_lsm.Common.{
  ℕ, ◌+◌, ◌≤◌, ◌<◌, ◌^◌, ◌≡◌, refl, sym, ap, Bool, true, not, ◌||◌, Option, none, some, List, [],
  ◌++◌, leb, ◌==◌, All, arith, inl, inr, bind-some, guard-some, if-some,
}
use mathlib.Core.Path.{subst, ◌∙◌}
use mathlib.Core.Option.{some-injective}
use bl_nova_lsm.Coding.{Bytes}
use bl_nova_lsm.Files.Replication.{FileInternalType}
use bl_nova_lsm.StocFile.{
  AllocatedBuf, StocFile, new_stoc_file, seal, is_nil, force_seal, allocate_buf, new_block,
  with_buf, mark_offset_as_written, marked,
}
use bl_nova_lsm.StocFile.Persist.{collect, flush}
use bl_nova_lsm.StocFile.Coalesced.{total_blocks, block_bytes}
use bl_nova_lsm.StocFile.Accounts.{
  IsAccounted, seal-succeeds, with_buf-IsAccounted, marked-IsAccounted,
}
use bl_nova_lsm.StocFile.Entries.{HasEntry, HasEntry-all, SameEntries-as}
use bl_nova_lsm.StocFile.Steps.{HasEntries, IsSound, SealedFrom-IsSound, collect-IsSound}
use bl_nova_lsm.StocFile.Flushed.{flush-IsFlushed}

-- A step of any thread that holds the locks of the file, with the second part of Persist as one step;
-- deletions of tables are left out.
pub data Step (parse : Bytes → Option Bool) (f g : StocFile) : Type 0 where
  allocates :
      (filename : Bytes) (size : ℕ) (t : FileInternalType) (offset : ℕ)
      → allocate_buf parse filename size t f ≡ some (offset, g)
      → Step parse f g
  marks : (offset : ℕ) → (mark_offset_as_written offset f).1 ≡ g → Step parse f g
  collects : (more : Bool) → collect parse f ≡ some (more, g) → Step parse f g
  flushes : (bytes : ℕ) → flush f ≡ some (bytes, g) → Step parse f g
  seals : force_seal f ≡ some g → Step parse f g

pub data Reach (parse : Bytes → Option Bool) (f : StocFile) : StocFile → Type 0 where
  here : Reach parse f f
  next : {g h : StocFile} → Reach parse f g → Step parse g h → Reach parse f h

with_same_blocks :
    (f g : StocFile)
    → HasEntries f
    → g.file_block_offset ≡ f.file_block_offset
    → g.file_meta_block_offset ≡ f.file_meta_block_offset
    → g.file_parity_block_offset ≡ f.file_parity_block_offset
    → g.written_mem_blocks ≡ f.written_mem_blocks
    → HasEntries g
with_same_blocks f g h d m p w = subst (All (HasEntry g)) (sym w) (
    HasEntry-all f g f.written_mem_blocks
      (SameEntries-as f f g (sym d) (sym m) (sym p) (λ t n e. e)) h)

allocate_buf-IsSound :
    (parse : Bytes → Option Bool) (filename : Bytes) (size : ℕ) (t : FileInternalType)
    (f g : StocFile) (offset : ℕ)
    → IsSound f
    → allocate_buf parse filename size t f ≡ some (offset, g)
    → IsSound g
unfolding allocate_buf
allocate_buf-IsSound parse filename size t f g offset w e =
    let (room, e1) = guard-some (leb (f.current_mem_offset + size) f.allocated_mem_size) _ _ e in
    let (is_table, at, e2) = bind-some (parse filename) _ _ e1 in
    elim (if-some (f.is_full || not (leb (f.current_mem_offset + size) f.allocated_mem_size)) _ _ _
      e2) [
        | inl (full, e3) ↦
            let (f1, at1, e4) = bind-some (seal f) _ _ e3 in
            let (f2, at2, a, from) = seal-succeeds f w.accounted in
            subst IsSound
              (some-injective f2 f1 (sym at2 ∙ at1) ∙ ap (λ p. p.1) (some-injective _ _ e4))
              (SealedFrom-IsSound f f2 w.entries a from)
        | inr (open_, e3) ↦
            let (unsealed, e4) = guard-some (not f.sealed) _ _ e3 in
            let (new, e5) = guard-some (new_block t is_table filename f) _ _ e4 in
            let (mem, at1, e6) = bind-some f.backing_mem _ _ e5 in
            subst IsSound (ap (λ p. p.1) (some-injective _ _ e6)) record {
              accounted = with_buf-IsAccounted filename size t f (fits room) w.accounted;
              entries =
                  with_same_blocks f (with_buf filename size t f) w.entries refl refl refl refl;
            }
      ]
  where
    fits :
        leb (f.current_mem_offset + size) f.allocated_mem_size ≡ true
        → f.current_mem_offset + size ≤ f.allocated_mem_size
    fits e = ground arith

marked-HasEntries :
    (f : StocFile) (o : Option (List AllocatedBuf)) → HasEntries f → HasEntries (marked f o).1
marked-HasEntries f none h = h
marked-HasEntries f (some bufs) h =
    with_same_blocks f (record f { allocated_bufs = bufs }) h refl refl refl refl

mark-IsSound : (offset : ℕ) (f : StocFile) → IsSound f → IsSound (mark_offset_as_written offset f).1
unfolding mark_offset_as_written
mark-IsSound offset f w = record {
  accounted = marked-IsAccounted _ f w.accounted;
  entries = marked-HasEntries f _ w.entries;
}

force_seal-IsSound : (f g : StocFile) → IsSound f → force_seal f ≡ some g → IsSound g
unfolding force_seal
force_seal-IsSound f g w e =
    let (empty, e1) = guard-some (is_nil f.allocated_bufs) _ _ e in
    let (idle, e2) = guard-some (f.persisting_cnt == 0) _ _ e1 in
    let full : StocFile = record f { is_full = true } in
    let a : IsAccounted full = record {
      handed_out = w.accounted.handed_out;
      within = w.accounted.within;
      fits = w.accounted.fits;
      collected = w.accounted.collected;
      persisted = w.accounted.persisted;
      counted = w.accounted.counted;
      buffered = w.accounted.buffered;
    } in
    let (f2, at, b, from) = seal-succeeds full a in
    subst IsSound (some-injective f2 g (sym at ∙ e2))
      (SealedFrom-IsSound full f2 (with_same_blocks f full w.entries refl refl refl refl) b from)

Step-IsSound :
    {parse : Bytes → Option Bool} {f g : StocFile} → Step parse f g → IsSound f → IsSound g
Step-IsSound {parse} {f} {g} (allocates filename size t offset e) w =
    allocate_buf-IsSound parse filename size t f g offset w e
Step-IsSound {parse} {f} {g} (marks offset e) w = subst IsSound e (mark-IsSound offset f w)
Step-IsSound {parse} {f} {g} (collects more e) w = collect-IsSound parse f more g w e
Step-IsSound {parse} {f} {g} (flushes bytes e) w =
    let (bytes', f', e', k) = flush-IsFlushed f w in
    subst IsSound (ap (λ p. p.1) (some-injective _ _ (sym e' ∙ e))) k.sound
Step-IsSound {parse} {f} {g} (seals e) w = force_seal-IsSound f g w e

new_stoc_file-IsSound : (mem size : ℕ) → size < 2 ^ 32 → IsSound (new_stoc_file mem size)
unfolding new_stoc_file
new_stoc_file-IsSound mem size h = record {
  accounted = record {
    handed_out = refl;
    within = omega arith;
    fits = h;
    collected = refl;
    persisted = refl;
    counted = refl;
    buffered = λ e. (mem, refl);
  };
  entries = tt;
}

Reach-IsSound :
    {parse : Bytes → Option Bool} {f g : StocFile} → IsSound f → Reach parse f g → IsSound g
Reach-IsSound w here = w
Reach-IsSound w (next r st) = Step-IsSound st (Reach-IsSound w r)

-- After any steps of AllocateBuf, MarkOffsetAsWritten, Persist and ForceSeal on a new StoC file of less
-- than 4 GB, its size is what was handed out of the buffer
-- and fits in it, and is made up of the buffers that are not collected, the blocks that wait and the
-- bytes on disk; the count of blocks that are being persisted is that of the blocks that wait.
pub stoc_file-IsAccounted :
    (parse : Bytes → Option Bool) (mem size : ℕ) (f : StocFile)
    → size < 2 ^ 32
    → Reach parse (new_stoc_file mem size) f
    → IsAccounted f
stoc_file-IsAccounted parse mem size f h r =
    (Reach-IsSound (new_stoc_file-IsSound mem size h) r).accounted

-- After any steps of AllocateBuf, MarkOffsetAsWritten, Persist and ForceSeal on a new StoC file of less
-- than 4 GB, the second part of Persist succeeds: it appends
-- the bytes of the waiting blocks one block after the other, in the order in which they were
-- collected, returns their number, and leaves no block waiting.
pub flush-appends :
    (parse : Bytes → Option Bool) (mem size : ℕ) (f : StocFile)
    → size < 2 ^ 32
    → Reach parse (new_stoc_file mem size) f
    → (bytes : ℕ) × (f' : StocFile) × (flush f ≡ some (bytes, f'))
      × (f'.disk ≡ f.disk ++ block_bytes f.written_mem_blocks)
      × (bytes ≡ total_blocks f.written_mem_blocks)
      × (f'.written_mem_blocks ≡ [])
flush-appends parse mem size f h r =
    let (bytes, f', e, k) =
      flush-IsFlushed f (Reach-IsSound (new_stoc_file-IsSound mem size h) r) in
    (bytes, f', e, k.appended_bytes, k.counted_bytes, k.none_waits)
