-- ===== src/StocFile/Steps.antt =====
-- A StoC file under AllocateBuf, MarkOffsetAsWritten, the two parts of Persist, and ForceSeal.
use bl_nova_lsm.Common.{
  ◌+◌, ◌≡◌, refl, sym, ap, Bool, true, false, Option, some, List, [], ◌∷◌, ◌++◌, append_assoc,
  append-nil, leb, length, length-append, All, arith, Bool-cases, inl, inr, bind-some, guard-some,
  if-some,
}
use mathlib.Core.Path.{subst}
use mathlib.Core.Option.{some-injective}
use bl_nova_lsm.Coding.{Bytes}
use bl_nova_lsm.Files.Replication.{FileInternalType, file_data, file_metadata, file_parity}
use bl_nova_lsm.StocFile.{
  AllocatedBuf, PersistStatus, BatchWrite, Blocks, StocFile, blocks_of, with_blocks, new_block,
  has_block, is_nil,
}
use bl_nova_lsm.StocFile.Persist.{collect_typed, collect_bufs, collect, put_block}
use bl_nova_lsm.StocFile.Coalesced.{total_blocks-end}
use bl_nova_lsm.StocFile.Accounts.{
  total_bufs, IsAccounted, seal-succeeds, SealedFrom, same, done, sealed_file,
}
use bl_nova_lsm.StocFile.Entries.{
  HasEntry, HasEntry-all, SameEntries, SameEntries-as, with_blocks-SameEntries, has_block-put_block,
  has_block-stays,
}

-- The file with the buffers that the loop has still to visit.
abbrev Remaining : List AllocatedBuf → StocFile → StocFile
Remaining bs f = record f { allocated_bufs = f.allocated_bufs ++ bs }

abbrev write_of : FileInternalType → AllocatedBuf → BatchWrite
write_of t b = record { offset = b.offset; size = b.size; sstable = b.filename; internal_type = t }

All-end {ℓ κ} :
    {A : Type ℓ} (P : A → Type κ) (xs : List A) (x : A) → All P xs → P x → All P (xs ++ (x ∷ []))
All-end P [] x h p = (p, tt)
All-end P (y ∷ ys) x h p = (h.0, All-end P ys x h.1 p)

length-end {ℓ} : {A : Type ℓ} (xs : List A) (x : A) → length (xs ++ (x ∷ [])) ≡ length xs + 1
length-end xs x = length-append xs (x ∷ [])

total_bufs-rest :
    (as' : List AllocatedBuf) (b : AllocatedBuf) (bs : List AllocatedBuf)
    → total_bufs (as' ++ (b ∷ bs)) ≡ total_bufs (as' ++ bs) + b.size
total_bufs-rest [] b bs = omega arith
total_bufs-rest (a ∷ as') b bs = omega (arith, total_bufs-rest as' b bs)

collect_typed-IsAccounted :
    (b : AllocatedBuf) (bs : List AllocatedBuf) (t : FileInternalType) (f : StocFile)
    → IsAccounted (Remaining (b ∷ bs) f)
    → IsAccounted (Remaining bs (collect_typed t b f))
collect_typed-IsAccounted b bs t f w = record {
  handed_out = w.handed_out;
  within = w.within;
  fits = w.fits;
  collected = omega (arith, w.collected, total_bufs-rest f.allocated_bufs b bs);
  persisted = omega (arith, w.persisted, total_blocks-end f.written_mem_blocks (write_of t b));
  counted = omega (arith, w.counted, length-end f.written_mem_blocks (write_of t b));
  buffered = w.buffered;
}

-- The blocks that wait have entries.
abbrev pub HasEntries : StocFile → Type 0
HasEntries f = All (HasEntry f) f.written_mem_blocks

collected_blocks :
    (t : FileInternalType) (b : AllocatedBuf) (f : StocFile)
    → blocks_of t (collect_typed t b f)
      ≡ put_block b.filename
          record { disk_offset = f.current_disk_offset; disk_size = b.size; persisted = false }
          (blocks_of t f)
collected_blocks file_data b f = refl
collected_blocks file_metadata b f = refl
collected_blocks file_parity b f = refl

collect_typed-HasEntries :
    (b : AllocatedBuf) (t : FileInternalType) (f : StocFile)
    → HasEntries f
    → HasEntries (collect_typed t b f)
collect_typed-HasEntries b t f h =
    let status : PersistStatus = record {
      disk_offset = f.current_disk_offset;
      disk_size = b.size;
      persisted = false;
    } in
    let bs : Blocks = put_block b.filename status (blocks_of t f) in
    let f' = collect_typed t b f in
    let same : SameEntries f f' =
      SameEntries-as f (with_blocks t bs f) f' refl refl refl (
        with_blocks-SameEntries t bs f
          (λ m. has_block-stays (blocks_of t f) b.filename m status)) in
    All-end (HasEntry f') f.written_mem_blocks (write_of t b)
      (HasEntry-all f f' f.written_mem_blocks same h)
      (subst (λ c. has_block c b.filename ≡ true) (sym (collected_blocks t b f))
        (has_block-put_block (blocks_of t f) b.filename status))

-- What holds between the steps.
pub record IsSound (f : StocFile) : Type 0 where
  pub accounted : IsAccounted f
  pub entries : HasEntries f

abbrev IsSoundFor : List AllocatedBuf → StocFile → Type 0
IsSoundFor bs f = IsAccounted (Remaining bs f) × HasEntries f

entries_with :
    (bs : List AllocatedBuf) (f : StocFile)
    → HasEntries f
    → HasEntries (record f { allocated_bufs = bs })
entries_with bs f h =
    let g : StocFile = record f { allocated_bufs = bs } in
    HasEntry-all f g f.written_mem_blocks (SameEntries-as f f g refl refl refl (λ t m e. e)) h

collect_bufs-IsSound :
    (parse : Bytes → Option Bool) (bs : List AllocatedBuf) (f f' : StocFile)
    → IsSoundFor bs f
    → collect_bufs parse bs f ≡ some f'
    → IsSound f'
unfolding collect_bufs
collect_bufs-IsSound parse [] f f' w = λ e. subst IsSound (some-injective f f' e) record {
  accounted =
      subst (λ bs. IsAccounted (record f { allocated_bufs = bs })) (append-nil f.allocated_bufs)
        w.0;
  entries = w.1;
}
collect_bufs-IsSound parse (b ∷ bs) f f' w = λ e. elim (if-some b.written_to_mem _ _ f' e) [
  | inr (waits, e1) ↦
      let rest = f.allocated_bufs ++ (b ∷ []) in
      collect_bufs-IsSound parse bs (record f { allocated_bufs = rest }) f'
        (
          subst (λ xs. IsAccounted (record f { allocated_bufs = xs }))
              (sym (append_assoc f.allocated_bufs (b ∷ []) bs)) w.0,
          entries_with rest f w.1,
        )
        e1
  | inl (written, e1) ↦
      let (is_table, at, e2) = bind-some (parse b.filename) _ _ e1 in
      let (new, e3) = guard-some (new_block b.internal_type is_table b.filename f) _ _ e2 in
      collect_bufs-IsSound parse bs (collect_typed b.internal_type b f) f'
        (
          collect_typed-IsAccounted b bs b.internal_type f w.0,
          collect_typed-HasEntries b b.internal_type f w.1,
        )
        e3
]

pub SealedFrom-IsSound :
    (f f' : StocFile) → HasEntries f → IsAccounted f' → SealedFrom f f' → IsSound f'
SealedFrom-IsSound f f' h w (same e) = record {
  accounted = w;
  entries = subst HasEntries (sym e) h;
}
SealedFrom-IsSound f f' h w (done e) = record {
  accounted = w;
  entries = subst HasEntries (sym e) (entries_as f.written_mem_blocks h);
}
  where
    entries_as : (ws : List BatchWrite) → All (HasEntry f) ws → All (HasEntry (sealed_file f)) ws
    entries_as ws h =
        HasEntry-all f (sealed_file f) ws
          (SameEntries-as f f (sealed_file f) refl refl refl (λ t m e. e)) h

-- The first part of Persist keeps the file sound.
pub collect-IsSound :
    (parse : Bytes → Option Bool) (f : StocFile) (more : Bool) (f' : StocFile)
    → IsSound f
    → collect parse f ≡ some (more, f')
    → IsSound f'
unfolding collect
collect-IsSound parse f more f' w = elim (Bool-cases (is_nil f.allocated_bufs)) [
  | inl empty ↦
      let (f1, e1, w1, from) = seal-succeeds f w.accounted in
      rw (e1, empty)
        (λ e.
          subst IsSound (ap (λ p. p.1) (some-injective _ _ e))
            (SealedFrom-IsSound f f1 w.entries w1 from))
  | inr some_left ↦ rw some_left (λ e.
      let (f1, at, e1) =
        bind-some (collect_bufs parse f.allocated_bufs (record f { allocated_bufs = [] })) _ _ e in
      let (within, e2) = guard-some (leb f1.current_disk_offset f1.file_size) _ _ e1 in
      subst IsSound (ap (λ p. p.1) (some-injective _ _ e2)) (
        collect_bufs-IsSound parse f.allocated_bufs (record f { allocated_bufs = [] }) f1
          (w.accounted, entries_with [] f w.entries) at))
]
