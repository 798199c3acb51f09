-- ===== src/MemManager.antt =====
-- common/nova_mem_manager.h and common/nova_mem_manager.cpp: the slab allocator of the registered
-- memory. An address is a number and 0 is nullptr. A slab has one owner, the array of free slabs or
-- a slab class, so it is a value; each operation is one step, since it runs under its mutex.
pub mod Owners
pub mod Alloc
pub mod Step
pub mod Classes
pub mod Disjoint
pub mod Safety
mod Examples
use bl_nova_lsm.Common.{
  ℕ, zero, suc, ◌+◌, ◌-◌, ◌*◌, ◌/◌, ◌%◌, ◌^◌, Bool, true, false, not, Option, none, some, List, [],
  ◌∷◌, ◌++◌, ltb, leb, ◌==◌, if◌then◌else◌, ◌>>=◌, ◌>>◌, guard, length, get_elem?, set_elem,
}

pub record Slab : Type 0 where
  pub item_size : ℕ
  pub next : ℕ
  pub available_bytes : ℕ
  pub slab_size_mb : ℕ

-- Slab::Slab, which leaves two fields without a value: here 0.
unfoldable pub new_slab : ℕ → ℕ → Slab
new_slab base slab_size_mb = record {
  item_size = 0;
  next = base;
  available_bytes = 0;
  slab_size_mb = slab_size_mb;
}

-- Slab::Init; num_items and the product have 32 bits.
unfoldable pub init_slab : ℕ → Slab → Slab
init_slab item_size s =
    let size = s.slab_size_mb * 1048576 % 2 ^ 64 in
    let num_items = size / item_size % 2 ^ 32 in
    record s { item_size = item_size; available_bytes = item_size * num_items % 2 ^ 32 }

-- Slab::AllocItem
unfoldable pub slab_alloc_item : Slab → ℕ × Slab
slab_alloc_item s = if ltb s.available_bytes s.item_size then (0, s) else (
  s.next,
  record s { next = s.next + s.item_size; available_bytes = s.available_bytes - s.item_size },
)

pub record SlabClass : Type 0 where
  pub nitems_per_slab : ℕ
  pub size : ℕ
  pub slabs : List Slab
  pub free_list : List ℕ

-- `slabs[slabs.size() - 1]->AllocItem()`, and nullptr when there is no slab.
unfoldable pub alloc_from_last : List Slab → ℕ × List Slab
unfolding slab_alloc_item
alloc_from_last [] = (0, [])
alloc_from_last (s ∷ []) = let (buf, s') = slab_alloc_item s in (buf, s' ∷ [])
alloc_from_last (s ∷ t ∷ ss) = let (buf, rest) = alloc_from_last (t ∷ ss) in (buf, s ∷ rest)

unfoldable pub alloc_from_class : List ℕ → SlabClass → Option (ℕ × SlabClass)
unfolding alloc_from_last
alloc_from_class (ptr ∷ ptrs) c = do
  guard (not (ptr == 0))
  some (ptr, record c { free_list = ptrs })
alloc_from_class [] c =
    let (buf, slabs) = alloc_from_last c.slabs in some (buf, record c { slabs = slabs })

-- SlabClass::AllocItem; none is the assertion that the free list has no nullptr.
unfoldable pub class_alloc_item : SlabClass → Option (ℕ × SlabClass)
unfolding alloc_from_class
class_alloc_item c = alloc_from_class c.free_list c

-- SlabClass::FreeItem
unfoldable pub class_free_item : ℕ → SlabClass → SlabClass
class_free_item buf c = record c { free_list = c.free_list ++ (buf ∷ []) }

-- SlabClass::AddSlab
unfoldable pub add_slab : Slab → SlabClass → SlabClass
add_slab s c = record c { slabs = c.slabs ++ (s ∷ []) }

-- NovaPartitionedMemManager. The index of the last free slab has 64 bits: 2 ^ 64 - 1 stands for -1.
pub record Partition : Type 0 where
  pub slab_classes : List SlabClass
  pub free_slabs : List Slab
  pub free_slab_index : ℕ
  pub slab_size_mb : ℕ
  pub print_class_oom : Bool

abbrev pub max_number_of_slab_classes : ℕ
max_number_of_slab_classes = 64

abbrev pub minus_one : ℕ
minus_one = 18446744073709551615

-- The loop over the slab classes in the constructor, `n` of them.
unfoldable pub new_classes : ℕ → ℕ → ℕ → List SlabClass
new_classes zero size slab_size = []
new_classes (suc n) size slab_size =
    let doubled = size * 2 % 2 ^ 64 in
    record { nitems_per_slab = slab_size / size; size = size; slabs = []; free_list = [] }
    ∷ new_classes n (if ltb slab_size doubled then slab_size else doubled) slab_size

-- The loop over the free slabs in the constructor, `n` of them.
unfoldable pub new_slabs : ℕ → ℕ → ℕ → ℕ → List Slab
unfolding new_slab
new_slabs zero slab_buf slab_size slab_size_mb = []
new_slabs (suc n) slab_buf slab_size slab_size_mb =
    new_slab slab_buf slab_size_mb ∷ new_slabs n (slab_buf + slab_size) slab_size slab_size_mb

-- NovaPartitionedMemManager::NovaPartitionedMemManager
unfoldable pub new_partition : ℕ → ℕ → ℕ → Partition
unfolding new_classes new_slabs
new_partition buf data_size slab_size_mb =
    let slab_size = slab_size_mb * 1048576 % 2 ^ 64 in
    let ndataslabs = data_size / slab_size in
    record {
      slab_classes = new_classes max_number_of_slab_classes 1200 slab_size;
      free_slabs = new_slabs ndataslabs buf slab_size slab_size_mb;
      free_slab_index = (ndataslabs + minus_one) % 2 ^ 64;
      slab_size_mb = slab_size_mb;
      print_class_oom = false;
    }

-- The loop of slabclassid over the classes from number `res` on; none is out of the array.
unfoldable pub first_fitting : List SlabClass → ℕ → ℕ → Option ℕ
first_fitting [] size res = none
first_fitting (c ∷ cs) size res =
    let later = first_fitting cs size (res + 1) in if ltb c.size size then later else some res

-- NovaPartitionedMemManager::slabclassid; none is an assertion that fails.
unfoldable pub slabclassid : ℕ → Partition → Option ℕ
unfolding first_fitting
slabclassid size m = do
  guard (ltb 0 size)
  guard (leb size (m.slab_size_mb * 1048576 % 2 ^ 64))
  first_fitting m.slab_classes size 0

-- The branch of ItemAlloc after the class had no item: a slab from the free ones, if there is any.
unfoldable pub alloc_new_slab : ℕ → SlabClass → Partition → Option (ℕ × Partition)
unfolding init_slab add_slab slab_alloc_item
alloc_new_slab scid c m =
    if m.free_slab_index == minus_one then some (0, record m { print_class_oom = true }) else (do
      slab ← get_elem? m.free_slabs m.free_slab_index
      let (buf, used) = slab_alloc_item (init_slab (c.size % 2 ^ 32) slab)
      some (
        buf,
        record m {
          slab_classes = set_elem m.slab_classes scid (add_slab used c);
          free_slab_index = (m.free_slab_index + minus_one) % 2 ^ 64;
        },
      ))

-- NovaPartitionedMemManager::ItemAlloc; none is an assertion that fails or an index out of range.
unfoldable pub item_alloc : ℕ → Partition → Option (ℕ × Partition)
unfolding class_alloc_item alloc_new_slab
item_alloc scid m = do
  c ← get_elem? m.slab_classes scid
  (buf, c') ← class_alloc_item c
  (if buf == 0
      then alloc_new_slab scid c' m
      else some (buf, record m { slab_classes = set_elem m.slab_classes scid c' }))

-- NovaPartitionedMemManager::FreeItem
unfoldable pub free_item : ℕ → ℕ → Partition → Option Partition
unfolding class_free_item
free_item buf scid m = do
  c ← get_elem? m.slab_classes scid
  some (record m { slab_classes = set_elem m.slab_classes scid (class_free_item buf c) })

-- NovaPartitionedMemManager::FreeItems
unfoldable pub free_items : List ℕ → ℕ → Partition → Option Partition
unfolding free_item
free_items [] scid m = some m
free_items (buf ∷ items) scid m = do m' ← free_item buf scid m; free_items items scid m'
