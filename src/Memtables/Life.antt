-- ===== src/Memtables/Life.antt =====
-- AtomicMemTable among a writer, the flush and any number of readers.
pub mod Alive
use bl_nova_lsm.Common.{
  ℕ, ◌+◌, ◌-◌, ◌≤◌, ◌<◌, ◌≡◌, refl, sym, ap, Bool, true, false, not, ◌==◌, Option, none, some, List,
  [], leb, if◌then◌else◌, arith, Bool-cases, inl, inr, bind-some, guard-some,
}
use mathlib.Core.Path.{subst}
use mathlib.Core.Option.{some-injective}
use bl_nova_lsm.Memtables.{
  MemTable, AtomicMemTable, new_atomic_memtable, set_memtable, make_immutable, set_flushed,
  ref_memtable, unref_memtable, update_l0_files, is_present, is_empty, unless_unused, count,
  ref_table, unref_table,
}

-- The object, and how many references the readers hold that RefMemTable granted and that were not
-- given back.
pub record Shared : Type 0 where
  pub table : AtomicMemTable
  pub held : ℕ

abbrev pub granted : Bool × AtomicMemTable → ℕ → Shared
granted (true, a) held = record { table = a; held = held + 1 }
granted (false, a) held = record { table = a; held = held }

-- What happens to the object, by any thread, one lock after the other. The flush and the recovery mark a
-- memtable without a test, which is the step `closes`. A new memtable is set when
-- the last one is gone; a reader gives back no more than it holds.
pub data Step (s t : Shared) : Type 0 where
  sets :
      (generation_id memtable_id : ℕ)
      → is_present s.table.memtable ≡ false
      → t ≡ record s {
        table = set_memtable generation_id (record { memtable_id = memtable_id; refs = 0 }) s.table;
      }
      → Step s t
  fills :
      (write_buffer_size : ℕ) (a : AtomicMemTable)
      → make_immutable write_buffer_size s.table ≡ some a
      → t ≡ record s { table = a }
      → Step s t
  closes : t ≡ record s { table = record s.table { is_immutable = true } } → Step s t
  flushes :
      (l0s : List ℕ) (version_id : ℕ) (a : AtomicMemTable)
      → set_flushed l0s version_id s.table ≡ some a
      → t ≡ record s { table = a }
      → Step s t
  asks : t ≡ granted (ref_memtable s.table) s.held → Step s t
  releases :
      (n : ℕ) (a : AtomicMemTable)
      → n ≤ s.held
      → unref_memtable n s.table ≡ some a
      → t ≡ record { table = a; held = s.held - n }
      → Step s t
  moves :
      (version_id : ℕ) (add remove : List ℕ) (a : AtomicMemTable)
      → update_l0_files version_id add remove s.table ≡ some a
      → t ≡ record s { table = a }
      → Step s t

pub data Reach (s : Shared) : Shared → Type 0 where
  here : Reach s s
  next : {t u : Shared} → Reach s t → Step t u → Reach s u

-- A new object with its first memtable, which no reader has asked for yet.
abbrev pub start : ℕ → ℕ → Shared
start generation_id memtable_id = record {
  table =
      set_memtable generation_id (record { memtable_id = memtable_id; refs = 0 })
        new_atomic_memtable;
  held = 0;
}

-- Each reference is one that a reader holds, or the one of the flush that is to come.
abbrev pub Counted : Option MemTable → Bool → ℕ → Type 0
Counted none flushed held = (held ≡ 0) × (flushed ≡ true)
Counted (some m) true held = (m.refs ≡ held) × (0 < held)
Counted (some m) false held = m.refs ≡ held + 1

pub record IsAlive (s : Shared) : Type 0 where
  pub counted : Counted s.table.memtable s.table.is_flushed s.held
  pub flushed_immutable : s.table.is_flushed ≡ true → s.table.is_immutable ≡ true
  pub unflushed_empty : s.table.is_flushed ≡ false → s.table.l0_file_numbers ≡ []
