-- ===== src/MemManager/Disjoint.antt =====
-- Sequences of allocations and releases on one partition, and what the clients hold.
use bl_nova_lsm.Common.{
  ℕ, zero, suc, ◌+◌, ◌*◌, ◌%◌, ◌^◌, ◌≤◌, ◌<◌, ◌≡◌, ◌≢◌, refl, ap, false, some, List, ◌∷◌, ◌++◌,
  ◌==◌, if◌then◌else◌, ltb, get_elem?, All, arith,
}
use mathlib.Core.Path.{◌∙◌}
use bl_nova_lsm.MemManager.{
  Slab, SlabClass, Partition, new_slab, new_classes, new_slabs, item_alloc, free_item,
}
use bl_nova_lsm.MemManager.Owners.{
  covers, covers_split, sum_of, sum_of-append, whole, class_covers, partition_covers, handed,
  ClassFits,
}
use bl_nova_lsm.MemManager.Alloc.{PartitionFits, PartitionAfter}
use bl_nova_lsm.MemManager.Step.{item_alloc-after, FreedAfter, free_item-after}

-- The partition, and the items that clients hold: an address and a number of bytes each.
pub record Held : Type 0 where
  pub partition : Partition
  pub items : List (ℕ × ℕ)

-- A client gets an item of a class, or nullptr; it gives one back that it holds, to a class of the
-- item's size.
pub data Steps : Held → Held → Type 0 where
  allocated :
      (m m' : Partition) (items : List (ℕ × ℕ)) (scid buf : ℕ) (c : SlabClass)
      → get_elem? m.slab_classes scid ≡ some c
      → item_alloc scid m ≡ some (buf, m')
      → buf ≢ 0
      → Steps
          (record { partition = m; items = items })
          (record { partition = m'; items = (buf, c.size) ∷ items })
  refused :
      (m m' : Partition) (items : List (ℕ × ℕ)) (scid : ℕ) (c : SlabClass)
      → get_elem? m.slab_classes scid ≡ some c
      → item_alloc scid m ≡ some (0, m')
      → Steps (record { partition = m; items = items }) (record { partition = m'; items = items })
  freed :
      (m m' : Partition) (before after : List (ℕ × ℕ)) (scid buf : ℕ) (c : SlabClass)
      → get_elem? m.slab_classes scid ≡ some c
      → free_item buf scid m ≡ some m'
      → Steps
          (record { partition = m; items = before ++ ((buf, c.size) ∷ after) })
          (record { partition = m'; items = before ++ after })

pub data Reachable (start : Held) : Held → Type 0 where
  here : Reachable start start
  step : (s t : Held) → Reachable start s → Steps s t → Reachable start t

abbrev pub items_cover : ℕ → List (ℕ × ℕ) → ℕ
items_cover a items = sum_of (λ (i : ℕ × ℕ). covers a i.0 i.1) items

-- Every address has one owner at most, and none outside the buffer.
pub record Owned (buf data_size : ℕ) (s : Held) : Type 0 where
  pub fits : PartitionFits s.partition
  pub one_owner :
      (a : ℕ) → partition_covers a s.partition + items_cover a s.items ≤ covers a buf data_size

Steps-Owned :
    (buf data_size : ℕ) (s t : Held) → Steps s t → Owned buf data_size s → Owned buf data_size t
Steps-Owned b n s t (allocated m m' items scid buf c at h there) w =
    let after : PartitionAfter m buf c.size m' = item_alloc-after m scid c w.fits at buf m' h in
    let not_null : (buf == 0) ≡ false = ground arith in
    record {
      fits = after.fits;
      one_owner = λ a.
          let mine : handed a buf c.size ≡ covers a buf c.size = rw not_null refl in
          omega (arith, after.owners a, w.one_owner a, mine);
    }
Steps-Owned b n s t (refused m m' items scid c at h) w =
    let after : PartitionAfter m 0 c.size m' = item_alloc-after m scid c w.fits at 0 m' h in
    record { fits = after.fits; one_owner = λ a. omega (arith, after.owners a, w.one_owner a) }
Steps-Owned b n s t (freed m m' before after scid buf c at h) w =
    let freed_after : FreedAfter m scid c w.fits at buf m' =
      free_item-after m scid c w.fits at buf m' h in
    let f = (λ (a : ℕ) (i : ℕ × ℕ). covers a i.0 i.1) in
    record {
      fits = freed_after.fits;
      one_owner = λ a. omega (
        arith,
        freed_after.owners a,
        w.one_owner a,
        sum_of-append (f a) before ((buf, c.size) ∷ after),
        sum_of-append (f a) before after,
      );
    }

pub Reachable-Owned :
    (buf data_size : ℕ) (s t : Held) → Owned buf data_size s → Reachable s t → Owned buf data_size t
Reachable-Owned b n s t w here = w
Reachable-Owned b n s t w (step u v r e) = Steps-Owned b n u v e (Reachable-Owned b n s u w r)

pub classes_fit :
    (n size slab_size : ℕ)
    → size < 2 ^ 32
    → slab_size < 2 ^ 32
    → All ClassFits (new_classes n size slab_size)
unfolding new_classes
classes_fit zero size slab_size h k = tt
classes_fit (suc n) size slab_size h k = (
  (h, tt),
  classes_fit n (if ltb slab_size (size * 2 % 2 ^ 64) then slab_size else (size * 2 % 2 ^ 64))
      slab_size (ground arith) k,
)

pub classes_own_nothing :
    (a n size slab_size : ℕ) → sum_of (class_covers a) (new_classes n size slab_size) ≡ 0
unfolding new_classes
classes_own_nothing a zero size slab_size = refl
classes_own_nothing a (suc n) size slab_size = omega (arith, classes_own_nothing a n _ slab_size)

pub slabs_same :
    (n buf size mb : ℕ) → All (λ (s : Slab). s.slab_size_mb ≡ mb) (new_slabs n buf size mb)
unfolding new_slabs new_slab
slabs_same zero buf size mb = tt
slabs_same (suc n) buf size mb = (refl, slabs_same n (buf + size) size mb)

pub slabs_in_buffer :
    (a n buf size mb : ℕ)
    → sum_of (whole a size) (new_slabs n buf size mb) ≤ covers a buf (n * size)
unfolding new_slabs new_slab
slabs_in_buffer a zero buf size mb = omega arith
slabs_in_buffer a (suc n) buf size mb =
    let split : covers a buf (suc n * size) ≡ covers a buf size + covers a (buf + size) (n * size) =
      ap (covers a buf) (omega arith) ∙ covers_split a buf size (n * size) in
    omega (arith, split, slabs_in_buffer a n (buf + size) size mb)
