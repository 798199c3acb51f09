-- ===== src/Memtables/Partition.antt =====
-- MemTablePartition (db/memtable.h, db/memtable.cc): the memtables of a partition by generation, as
-- the flush order reads them. The std::map is the ascending list of its entries.
pub mod Recorded
use bl_nova_lsm.Common.{
  ℕ, Bool, true, false, Option, none, some, List, [], ◌∷◌, ltb, ◌==◌, if◌then◌else◌, ◌>>=◌,
}
use bl_nova_lsm.Common.Sets.{insert, erase, contains}
use bl_nova_lsm.Memtables.{is_empty}

-- generation_num_memtables_
abbrev pub Generations : Type 0
Generations = List (ℕ × List ℕ)

-- MemTablePartition::AddMemTable
unfoldable pub add_memtable : ℕ → ℕ → Generations → Generations
add_memtable generation_id memtableid [] = (generation_id, memtableid ∷ []) ∷ []
add_memtable generation_id memtableid ((g, ids) ∷ rest) =
    let later = add_memtable generation_id memtableid rest in
    if ltb generation_id g
    then (generation_id, memtableid ∷ []) ∷ (g, ids) ∷ rest
    else if generation_id == g
    then (g, insert memtableid ids) ∷ rest
    else (g, ids) ∷ later

-- `if (it->second.empty()) generation_num_memtables_.erase(generation_id);`
abbrev pub unless_empty : ℕ → List ℕ → Generations → Generations
unless_empty g ids rest = if is_empty ids then rest else (g, ids) ∷ rest

-- MemTablePartition::RemoveMemTable; none is the assertion that the generation is there.
unfoldable pub remove_memtable : ℕ → ℕ → Generations → Option Generations
remove_memtable generation_id memtableid [] = none
remove_memtable generation_id memtableid ((g, ids) ∷ rest) =
    let later = remove_memtable generation_id memtableid rest in
    if generation_id == g
    then some (unless_empty g (erase memtableid ids) rest)
    else (do r ← later; some ((g, ids) ∷ r))
