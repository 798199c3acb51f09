-- ===== src/Memtables/Release.antt =====
-- When the memtable of an AtomicMemTable is there, and that it can always be given up.
use bl_nova_lsm.Common.{
  ℕ, ◌-◌, ◌≤◌, ◌<◌, ◌≡◌, refl, Bool, true, false, not, ◌&&◌, ◌==◌, Option, none, some, [], leb,
  arith, Bool-cases, Option-cases, inl, inr,
}
use mathlib.Core.Path.{subst, ◌∙◌}
use bl_nova_lsm.Common.Sets.{insert_all}
use bl_nova_lsm.Memtables.{
  MemTable, AtomicMemTable, set_flushed, unref_memtable, is_present, is_empty, max, unless_unused,
  unref_table,
}
use bl_nova_lsm.Memtables.Life.{
  Shared, Step, closes, flushes, releases, Reach, here, next, start, Counted, IsAlive,
}
use bl_nova_lsm.Memtables.Life.Alive.{Reach-IsAlive, start-IsAlive}

present_if :
    (m : Option MemTable) (f : Bool) (held : ℕ)
    → Counted m f held
    → is_present m ≡ not (f && held == 0)
present_if none f held c = rw (c.0, c.1) refl
present_if (some m) true held c = ground (arith, c.1)
present_if (some m) false held c = refl

-- After any sequence of steps on an AtomicMemTable, which gets a new memtable only when it has none,
-- its memtable is there exactly when it is not yet flushed or a reader holds a reference.
pub present_iff_needed :
    (generation_id memtable_id : ℕ) (s : Shared)
    → Reach (start generation_id memtable_id) s
    → is_present s.table.memtable ≡ not (s.table.is_flushed && s.held == 0)
present_iff_needed g i s r =
    present_if s.table.memtable s.table.is_flushed s.held
      (Reach-IsAlive (start-IsAlive g i) r).counted

unref_enough :
    (n : ℕ) (m : MemTable) → n ≤ m.refs → (left : MemTable) × (unref_table n m ≡ some left)
unfolding unref_table
unref_enough n m h =
    let enough : leb n m.refs ≡ true = ground arith in
    (record m { refs = m.refs - n }, rw enough refl)

held_le : (m : MemTable) (f : Bool) (n held : ℕ) → n ≤ held → Counted (some m) f held → n ≤ m.refs
held_le m true n held l c = omega (arith, c.0)
held_le m false n held l c = omega arith

release_held :
    (s : Shared) (n : ℕ)
    → IsAlive s
    → 0 < s.held
    → n ≤ s.held
    → (a : AtomicMemTable) × (unref_memtable n s.table ≡ some a)
      × (a.is_flushed ≡ s.table.is_flushed)
unfolding unref_memtable
release_held s n w p l = elim (Option-cases s.table.memtable) [
  | inl absent ↦
      let c = subst (λ m. Counted m s.table.is_flushed s.held) absent w.counted in
      absurd (omega (arith, c.0))
  | inr (mem, at) ↦
      let c = subst (λ m. Counted m s.table.is_flushed s.held) at w.counted in
      let (left, e) = unref_enough n mem (held_le mem s.table.is_flushed n s.held l c) in
      (record s.table { memtable = unless_unused left }, rw (at, e) refl, refl)
]

-- After any sequence of steps, with a new memtable set only when there is none, a reader that holds
-- references can give back any number of them: the memtable is there, and no assertion of Unref fails.
pub unref_memtable-succeeds :
    (generation_id memtable_id : ℕ) (s : Shared) (n : ℕ)
    → Reach (start generation_id memtable_id) s
    → 0 < s.held
    → n ≤ s.held
    → (is_present s.table.memtable ≡ true)
      × ((a : AtomicMemTable) × (unref_memtable n s.table ≡ some a))
unref_memtable-succeeds g i s n r p l =
    let w = Reach-IsAlive (start-IsAlive g i) r in
    let (a, e, f) = release_held s n w p l in
    (there s.table.memtable s.table.is_flushed w.counted, (a, e))
  where
    there : (m : Option MemTable) (f : Bool) → Counted m f s.held → is_present m ≡ true
    there none f c = absurd (omega (arith, c.0))
    there (some m) f c = refl

append : {s t u : Shared} → Reach s t → Reach t u → Reach s u
append r here = r
append r (next q st) = next (append r q) st

-- A state in which the memtable is flushed and no reader is left.
abbrev Unneeded : Shared → Type 0
Unneeded s = (s.table.is_flushed ≡ true) × (s.held ≡ 0)

drop_readers :
    (s : Shared) → IsAlive s → s.table.is_flushed ≡ true → (t : Shared) × Reach s t × Unneeded t
drop_readers s w f = elim (Bool-cases (s.held == 0)) [
  | inl z ↦ (s, here, (f, ground arith))
  | inr p ↦
      let (a, e, same) = release_held s s.held w (ground arith) (omega arith) in
      (
        record { table = a; held = s.held - s.held },
        next here (releases s.held a (omega arith) e refl),
        (same ∙ f, omega arith),
      )
]

flush_now :
    (a : AtomicMemTable) (held : ℕ)
    → a.is_flushed ≡ false
    → a.is_immutable ≡ true
    → IsAlive (record { table = a; held = held })
    → (b : AtomicMemTable) × (set_flushed [] 0 a ≡ some b) × (b.is_flushed ≡ true)
unfolding set_flushed
flush_now a held f i w = elim (Option-cases a.memtable) [
  | inl absent ↦ let c = subst (λ m. Counted m a.is_flushed held) absent w.counted in absurd (cc)
  | inr (mem, at) ↦
      let c = subst (λ m. Counted m a.is_flushed held) at w.counted in
      let d = subst (λ g. Counted (some mem) g held) f c in
      let (left, e) = unref_enough 1 mem (omega (arith, d)) in
      let no_files : is_empty a.l0_file_numbers ≡ true = rw (w.unflushed_empty f) refl in
      (
        record a {
          last_version_id = max a.last_version_id 0;
          l0_file_numbers = insert_all a.l0_file_numbers [];
          is_flushed = true;
          memtable = unless_unused left;
        },
        rw (f, no_files, i, at, e) refl,
        refl,
      )
]

flush_first :
    (s : Shared)
    → IsAlive s
    → s.table.is_flushed ≡ false
    → (t : Shared) × Reach s t × (t.table.is_flushed ≡ true)
flush_first s w f =
    let a : AtomicMemTable = record s.table { is_immutable = true } in
    let st : Step s (record s { table = a }) = closes refl in
    let (b, e, g) = flush_now a s.held f refl (Reach-IsAlive w (next here st)) in
    (record s { table = b }, next (next here st) (flushes [] 0 b e refl), g)

release : (s : Shared) → IsAlive s → (t : Shared) × Reach s t × Unneeded t
release s w = elim (Bool-cases s.table.is_flushed) [
  | inl flushed ↦ drop_readers s w flushed
  | inr unflushed ↦
      let (t, r, f) = flush_first s w unflushed in
      let (u, q, e) = drop_readers t (Reach-IsAlive w r) f in (u, append r q, e)
]

-- From every state that a sequence of steps leads to, further steps lead to one in which the memtable
-- is given up: it can be filled, flushed and released by its readers, and no assertion fails on the
-- way.
pub can_be_released :
    (generation_id memtable_id : ℕ) (s : Shared)
    → Reach (start generation_id memtable_id) s
    → (t : Shared) × Reach s t × (is_present t.table.memtable ≡ false)
can_be_released g i s r =
    let w = Reach-IsAlive (start-IsAlive g i) r in
    let (t, q, e) = release s w in
    let there = present_if t.table.memtable t.table.is_flushed t.held (Reach-IsAlive w q).counted in
    (t, q, rw (there, e.0, e.1) refl)
