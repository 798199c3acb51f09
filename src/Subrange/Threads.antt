-- ===== src/Subrange/Threads.antt =====
-- The compaction threads of a subrange.
use bl_nova_lsm.Common.{ℕ, ◌+◌, ◌-◌, ◌%◌, ◌≤◌, ◌<◌, ◌≡◌, some, arith, ◌==◌, inl, inr, Bool-cases}
use bl_nova_lsm.Subrange.{SubRange, get_compaction_thread_id}

-- GetCompactionThreadId never fails its assertion; the thread lies between the subrange's first
-- and last one, and the flag is the subrange's own.
pub get_compaction_thread_id_bounds :
    (sr : SubRange) (rr_id : ℕ)
    → sr.start_tid ≤ sr.end_tid
    → (tid : ℕ) × (next : ℕ) × (get_compaction_thread_id sr rr_id
        ≡ some (tid, sr.merge_memtables_without_flushing, next))
      × (sr.start_tid ≤ tid)
      × (tid ≤ sr.end_tid)
unfolding get_compaction_thread_id
get_compaction_thread_id_bounds sr rr_id h = elim (Bool-cases (sr.start_tid == sr.end_tid)) [
  | inl same ↦ (sr.start_tid, rr_id, rw same, omega arith, h)
  | inr several ↦
      let index : ℕ = rr_id % (sr.end_tid + 1 - sr.start_tid) in
      let below : index < sr.end_tid + 1 - sr.start_tid = omega arith in
      (sr.start_tid + index, rr_id + 1, rw several (ground arith), omega arith, omega arith)
]
