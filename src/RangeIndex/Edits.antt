-- ===== src/RangeIndex/Edits.antt =====
-- What a scan of a range reads after an edit of its tables.
use bl_nova_lsm.Common.{
  ℕ, suc, ◌≡◌, ◌⊎◌, refl, ap, true, false, some, List, [], ◌∷◌, ◌==◌, get_elem?, arith, Bool-cases,
  inl, inr,
}
use bl_nova_lsm.Common.Sets.{
  erase, contains, IsAscending, contains-insert, contains-erase, erase-IsAscending,
}
use mathlib.Core.Path.{◌∙◌}
use bl_nova_lsm.RangeIndex.{
  RangeTables, TablesEdit, erase_all, edit_tables, replace_sstables_in, replace_memtable,
  replace_memtables_in,
}

l0_stays_one :
    (p : ℕ × ℕ) (t : RangeTables) (y : ℕ)
    → contains t.l0_sstable_ids y ≡ true
    → contains (replace_memtable p t).l0_sstable_ids y ≡ true
unfolding replace_memtable
l0_stays_one (m, s) t y h = elim (Bool-cases (contains t.memtable_ids m)) [
  | inl there ↦ rw there (ground (arith, contains-insert s y t.l0_sstable_ids))
  | inr absent ↦ rw absent h
]

-- A table of level 0 is never lost by the replacement of memtables.
l0_stays :
    (ps : List (ℕ × ℕ)) (t : RangeTables) (y : ℕ)
    → contains t.l0_sstable_ids y ≡ true
    → contains (replace_memtables_in ps t).l0_sstable_ids y ≡ true
unfolding replace_memtables_in
l0_stays [] t y h = h
l0_stays (p ∷ ps) t y h = l0_stays ps (replace_memtable p t) y (l0_stays_one p t y h)

replace_memtable-IsAscending :
    (p : ℕ × ℕ) (t : RangeTables)
    → IsAscending t.memtable_ids
    → IsAscending (replace_memtable p t).memtable_ids
unfolding replace_memtable
replace_memtable-IsAscending (m, s) t o = elim (Bool-cases (contains t.memtable_ids m)) [
  | inl there ↦ rw there (erase-IsAscending m t.memtable_ids o)
  | inr absent ↦ rw absent o
]

-- The memtable is still read, or the SSTable that it was replaced by.
abbrev pub StillRead : List (ℕ × ℕ) → RangeTables → ℕ → Type 0
StillRead ps t memtable =
    (contains t.memtable_ids memtable ≡ true)
    ⊎ ((i sstable : ℕ) × (get_elem? ps i ≡ some (memtable, sstable))
        × (contains t.l0_sstable_ids sstable ≡ true))

one_replaced :
    (m s x : ℕ) (t : RangeTables)
    → IsAscending t.memtable_ids
    → contains t.memtable_ids x ≡ true
    → (contains (replace_memtable (m, s) t).memtable_ids x ≡ true)
      ⊎ ((m ≡ x) × (contains (replace_memtable (m, s) t).l0_sstable_ids s ≡ true))
unfolding replace_memtable
one_replaced m s x t o h = elim (Bool-cases (contains t.memtable_ids m)) [
  | inr absent ↦ rw absent (inl h)
  | inl there ↦ rw there (elim (Bool-cases (m == x)) [
    | inl same ↦ inr (ground arith, ground (arith, contains-insert s s t.l0_sstable_ids))
    | inr other ↦ inl (ground (arith, contains-erase m x t.memtable_ids o))
  ])
]

-- When memtables are replaced in the tables of a range, every memtable that a scan of the range read
-- is still read, or else an SSTable that the edit replaces it by is.
pub replace_memtables_in-StillRead :
    (ps : List (ℕ × ℕ)) (t : RangeTables) (memtable : ℕ)
    → IsAscending t.memtable_ids
    → contains t.memtable_ids memtable ≡ true
    → StillRead ps (replace_memtables_in ps t) memtable
unfolding replace_memtables_in
replace_memtables_in-StillRead [] t x o h = inl h
replace_memtables_in-StillRead ((m, s) ∷ ps) t x o h = elim (one_replaced m s x t o h) [
  | inl kept ↦
      elim (replace_memtables_in-StillRead ps (replace_memtable (m, s) t) x
        (replace_memtable-IsAscending (m, s) t o) kept) [
          | inl still ↦ inl still
          | inr replaced ↦ let (i, sstable, at, there) = replaced in inr (suc i, sstable, at, there)
        ]
  | inr gone ↦
      inr
        (0, s, ap (λ (k : ℕ). some (k, s)) gone.0, l0_stays ps (replace_memtable (m, s) t) s gone.1)
]

erase_all_keeps :
    (xs s : List ℕ) (y : ℕ)
    → IsAscending s
    → contains xs y ≡ false
    → contains s y ≡ true
    → (contains (erase_all xs s) y ≡ true) × IsAscending (erase_all xs s)
unfolding erase_all contains
erase_all_keeps [] s y o n h = (h, o)
erase_all_keeps (x ∷ xs) s y o n h =
    let other : (x == y) ≡ false = ground arith in
    let rest : contains xs y ≡ false = ground arith in
    erase_all_keeps xs (erase x s) y (erase-IsAscending x s o) rest
      (contains-erase x y s o ∙ rw (other, h) refl)

-- After an edit of the tables of a range that does not remove a memtable and replaces no SSTables, a
-- scan of the range that read the memtable still reads it, or an SSTable that the edit replaces it
-- by.
pub edit_tables-StillRead :
    (edit : TablesEdit) (t : RangeTables) (memtable : ℕ)
    → IsAscending t.memtable_ids
    → edit.replace_l0_sstables ≡ []
    → contains edit.removed_memtables memtable ≡ false
    → contains t.memtable_ids memtable ≡ true
    → StillRead edit.replace_memtables (edit_tables edit t) memtable
unfolding edit_tables replace_sstables_in
edit_tables-StillRead edit t x o none_replaced not_removed h =
    let kept = erase_all_keeps edit.removed_memtables t.memtable_ids x o not_removed h in
    rw none_replaced (
      replace_memtables_in-StillRead edit.replace_memtables
        record {
          memtable_ids = erase_all edit.removed_memtables t.memtable_ids;
          l0_sstable_ids = erase_all edit.removed_l0_sstables t.l0_sstable_ids;
        }
        x kept.1 kept.0)
