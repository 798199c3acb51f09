-- ===== src/MemManager/Examples.antt =====
-- A partition of two slabs of 1 MB at address 4096, of which clients take two items.
use bl_nova_lsm.Common.{
  ℕ, ◌+◌, ◌≤◌, ◌<◌, ◌≡◌, ◌⊎◌, refl, Option, none, some, [], ◌∷◌, get_elem?, arith,
}
use bl_nova_lsm.MemManager.{
  SlabClass, Partition, max_number_of_slab_classes, new_partition, item_alloc, slabclassid,
}
use bl_nova_lsm.MemManager.Disjoint.{Held, allocated, Reachable, here, step}
use bl_nova_lsm.MemManager.Safety.{fresh, no_overlap, items_in_buffer}
use bl_nova_lsm.MemManager.Classes.{Fits, slabclassid-Fits}

abbrev start : Held
start = fresh 4096 2097152 1

slabclassid-Fits_example :
    (scid : ℕ) × (slabclassid 5000 (new_partition 4096 2097152 1) ≡ some scid)
    × Fits (new_partition 4096 2097152 1).slab_classes 5000 scid
    × (scid < max_number_of_slab_classes)
slabclassid-Fits_example =
    slabclassid-Fits 4096 2097152 1 5000 (omega arith) (omega arith) (omega arith)

abbrev unwrap : Partition → Option (ℕ × Partition) → Partition
unwrap m none = m
unwrap m (some (buf, m')) = m'

abbrev one_taken : Partition
one_taken = unwrap start.partition (item_alloc 0 start.partition)

abbrev two_taken : Partition
two_taken = unwrap one_taken (item_alloc 0 one_taken)

abbrev first_class : Partition → SlabClass
first_class m = class_or (get_elem? m.slab_classes 0)
  where
    class_or : Option SlabClass → SlabClass
    class_or none = record { nitems_per_slab = 0; size = 0; slabs = []; free_list = [] }
    class_or (some c) = c

abbrev holding : Held
holding = record { partition = two_taken; items = (1053872, 1200) ∷ (1052672, 1200) ∷ [] }

holding-Reachable : Reachable start holding
unfolding new_partition item_alloc
holding-Reachable =
    step (record { partition = one_taken; items = (1052672, 1200) ∷ [] }) holding
      (step start (record { partition = one_taken; items = (1052672, 1200) ∷ [] }) here
        (allocated start.partition one_taken [] 0 1052672 (first_class start.partition) refl refl
          (λ e. absurd (omega (arith, e)))))
      (allocated one_taken two_taken ((1052672, 1200) ∷ []) 0 1053872 (first_class one_taken) refl
        refl (λ e. absurd (omega (arith, e))))

no_overlap_example : (1053900 < 1052672) ⊎ (1052672 + 1200 ≤ 1053900)
no_overlap_example =
    no_overlap 4096 2097152 1 holding 1053900 0 1 1053872 1200 1052672 1200 (omega arith)
      holding-Reachable refl refl (λ e. absurd (omega (arith, e))) (omega arith) (omega arith)

items_in_buffer_example : (4096 ≤ 1053900) × (1053900 < 4096 + 2097152)
items_in_buffer_example =
    items_in_buffer 4096 2097152 1 holding 1053900 0 1053872 1200 (omega arith) holding-Reachable
      refl (omega arith) (omega arith)
