-- ===== src/StocFile/Flushed.antt =====
-- What the second part of Persist does.
use bl_nova_lsm.Common.{
  ℕ, ◌+◌, ◌-◌, ◌≡◌, refl, sym, ap, true, some, List, [], ◌∷◌, ◌++◌, append-nil, length,
  length-append, All, arith, Bool-cases, inl, inr,
}
use mathlib.Core.Path.{◌∙◌}
use bl_nova_lsm.StocFile.{BatchWrite, StocFile, blocks_of, with_blocks, is_nil}
use bl_nova_lsm.StocFile.Persist.{append_ranges, ranges_of, flush, one_persisted, mark_persisted}
use bl_nova_lsm.StocFile.Coalesced.{
  total_blocks, block_bytes, append_ranges-ranges_of, total_size-ranges_of, length-block_bytes,
}
use bl_nova_lsm.StocFile.Accounts.{total_bufs, IsAccounted, seal-succeeds, SealedFrom, same, done}
use bl_nova_lsm.StocFile.Entries.{
  HasEntry, HasEntry-all, SameEntries, SameEntries-as, with_blocks-SameEntries,
  set_persisted-succeeds,
}
use bl_nova_lsm.StocFile.Steps.{IsSound, SealedFrom-IsSound}

-- What marking blocks as persisted leaves as it is, and what it counts down.
record Marked (f f' : StocFile) (n : ℕ) : Type 0 where
  file_size_same : f'.file_size ≡ f.file_size
  mem_offset_same : f'.current_mem_offset ≡ f.current_mem_offset
  mem_size_same : f'.allocated_mem_size ≡ f.allocated_mem_size
  disk_offset_same : f'.current_disk_offset ≡ f.current_disk_offset
  bufs_same : f'.allocated_bufs ≡ f.allocated_bufs
  sealed_same : f'.sealed ≡ f.sealed
  backing_same : f'.backing_mem ≡ f.backing_mem
  full_same : f'.is_full ≡ f.is_full
  counted_down : f'.persisting_cnt ≡ f.persisting_cnt - n

mark_persisted-Marked :
    (ws : List BatchWrite) (f : StocFile)
    → All (HasEntry f) ws
    → (f' : StocFile) × (mark_persisted ws f ≡ some f') × Marked f f' (length ws)
unfolding mark_persisted
mark_persisted-Marked [] f h = (
  f,
  refl,
  record {
    file_size_same = refl;
    mem_offset_same = refl;
    mem_size_same = refl;
    disk_offset_same = refl;
    bufs_same = refl;
    sealed_same = refl;
    backing_same = refl;
    full_same = refl;
    counted_down = omega arith;
  },
)
mark_persisted-Marked (w ∷ ws) f h =
    let t = w.internal_type in
    let (bs, e, kept) = set_persisted-succeeds (blocks_of t f) w.sstable h.0 in
    let f1 = one_persisted t bs f in
    let entries : SameEntries f f1 =
      SameEntries-as f (with_blocks t bs f) f1 refl refl refl
        (with_blocks-SameEntries t bs f (λ m k. kept m ∙ k)) in
    let (f', e1, m) = mark_persisted-Marked ws f1 (HasEntry-all f f1 ws entries h.1) in
    rw (e, e1)
      (
        f',
        refl,
        record {
          file_size_same = m.file_size_same;
          mem_offset_same = m.mem_offset_same;
          mem_size_same = m.mem_size_same;
          disk_offset_same = m.disk_offset_same;
          bufs_same = m.bufs_same;
          sealed_same = m.sealed_same;
          backing_same = m.backing_same;
          full_same = m.full_same;
          counted_down = omega (arith, m.counted_down);
        },
      )

-- The file between the marking of the blocks and the seal.
abbrev appended : StocFile → StocFile → StocFile
appended f f1 = record f1 {
  written_mem_blocks = [];
  disk = append_ranges f.disk (ranges_of f.written_mem_blocks);
}

appended-IsAccounted :
    (f f1 : StocFile)
    → Marked f f1 (length f.written_mem_blocks)
    → IsAccounted f
    → IsAccounted (appended f f1)
appended-IsAccounted f f1 m w = record {
  handed_out = omega (arith, w.handed_out, m.file_size_same, m.mem_offset_same);
  within = omega (arith, w.within, m.mem_offset_same, m.mem_size_same);
  fits = omega (arith, w.fits, m.mem_size_same);
  collected =
      omega (arith, w.collected, m.disk_offset_same, m.file_size_same, ap total_bufs m.bufs_same);
  persisted = omega (arith, w.persisted, m.disk_offset_same, on_disk);
  counted = omega (arith, w.counted, m.counted_down);
  buffered = λ e. let (mem, at) = w.buffered (sym m.sealed_same ∙ e) in (mem, m.backing_same ∙ at);
}
  where
    on_disk :
        length (append_ranges f.disk (ranges_of f.written_mem_blocks))
        ≡ length f.disk + total_blocks f.written_mem_blocks
    on_disk =
        ap length (append_ranges-ranges_of f.disk f.written_mem_blocks)
        ∙ (length-append f.disk (block_bytes f.written_mem_blocks)
            ∙ ap (λ n. length f.disk + n) (length-block_bytes f.written_mem_blocks))

same_disk : (f f' : StocFile) → SealedFrom f f' → f'.disk ≡ f.disk
same_disk f f' (same e) = ap (λ (x : StocFile). x.disk) e
same_disk f f' (done e) = ap (λ (x : StocFile). x.disk) e

same_waiting : (f f' : StocFile) → SealedFrom f f' → f'.written_mem_blocks ≡ f.written_mem_blocks
same_waiting f f' (same e) = ap (λ (x : StocFile). x.written_mem_blocks) e
same_waiting f f' (done e) = ap (λ (x : StocFile). x.written_mem_blocks) e

-- What the second part of Persist returns and leaves.
pub record IsFlushed (f : StocFile) (bytes : ℕ) (f' : StocFile) : Type 0 where
  pub sound : IsSound f'
  pub appended_bytes : f'.disk ≡ f.disk ++ block_bytes f.written_mem_blocks
  pub counted_bytes : bytes ≡ total_blocks f.written_mem_blocks
  pub none_waits : f'.written_mem_blocks ≡ []

pub flush-IsFlushed :
    (f : StocFile)
    → IsSound f
    → (bytes : ℕ) × (f' : StocFile) × (flush f ≡ some (bytes, f')) × IsFlushed f bytes f'
unfolding flush
flush-IsFlushed f w = elim (Bool-cases (is_nil f.written_mem_blocks)) [
  | inl empty ↦
      let (f', e, a, from) = seal-succeeds f w.accounted in
      let nothing : f.written_mem_blocks ≡ [] = nil_of f.written_mem_blocks empty in
      rw (empty, e)
        (
          0,
          f',
          refl,
          record {
            sound = SealedFrom-IsSound f f' w.entries a from;
            appended_bytes =
                same_disk f f' from
                ∙ (sym (append-nil f.disk) ∙ ap (λ ws. f.disk ++ block_bytes ws) (sym nothing));
            counted_bytes = ap total_blocks (sym nothing);
            none_waits = same_waiting f f' from ∙ nothing;
          },
        )
  | inr waiting ↦
      let (f1, e, m) = mark_persisted-Marked f.written_mem_blocks f w.entries in
      let (f2, e2, a, from) =
        seal-succeeds (appended f f1) (appended-IsAccounted f f1 m w.accounted) in
      rw (waiting, e, e2)
        (
          _,
          f2,
          refl,
          record {
            sound = SealedFrom-IsSound (appended f f1) f2 tt a from;
            appended_bytes =
                same_disk (appended f f1) f2 from
                ∙ append_ranges-ranges_of f.disk f.written_mem_blocks;
            counted_bytes = total_size-ranges_of f.written_mem_blocks;
            none_waits = same_waiting (appended f f1) f2 from;
          },
        )
]
  where
    nil_of : (ws : List BatchWrite) → is_nil ws ≡ true → ws ≡ []
    nil_of [] e = refl
    nil_of (x ∷ xs) e = absurd (cc)
