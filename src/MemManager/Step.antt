-- ===== src/MemManager/Step.antt =====
-- ItemAlloc and FreeItem as they are called: what they leave, in terms of owners.
use bl_nova_lsm.Common.{
  ℕ, ◌+◌, ◌≤◌, ◌≡◌, refl, ap, Option, none, some, [], ◌∷◌, ◌==◌, if◌then◌else◌, ◌>>=◌, get_elem?,
  set_elem, arith, Bool-cases, inl, inr,
}
use mathlib.Core.Path.{subst}
use mathlib.Core.Option.{some-injective}
use bl_nova_lsm.Common.Ordered.{All-get}
use bl_nova_lsm.MemManager.{
  SlabClass, Partition, class_alloc_item, class_free_item, alloc_new_slab, item_alloc, free_item,
}
use bl_nova_lsm.MemManager.Owners.{
  covers, sum_of-append, sum_of-set_elem, All-set_elem, class_covers, partition_covers, handed,
  ClassFits,
}
use bl_nova_lsm.MemManager.Alloc.{
  ClassAfter, PartitionFits, PartitionAfter, class_alloc_item-after, alloc_new_slab-after,
}

module _ (m : Partition) (scid : ℕ) (c : SlabClass) (w : PartitionFits m)
    (at : get_elem? m.slab_classes scid ≡ some c) where
  class_fits : ClassFits c
  class_fits = All-get ClassFits m.slab_classes scid c w.classes_fit at

  with-ClassFits :
      (c' : SlabClass)
      → ClassFits c'
      → PartitionFits (record m { slab_classes = set_elem m.slab_classes scid c' })
  with-ClassFits c' h = record {
    classes_fit = All-set_elem ClassFits m.slab_classes scid c' w.classes_fit h;
    slabs_same = w.slabs_same;
    index_fits = w.index_fits;
  }

  from_class_item :
      (o : Option (ℕ × SlabClass)) (buf : ℕ) (m' : Partition)
      → class_alloc_item c ≡ o
      → ◌>>=◌ {B = ℕ × Partition} o (λ (b, c').
        if b == 0
        then alloc_new_slab scid c' m
        else some (b, record m { slab_classes = set_elem m.slab_classes scid c' }))
        ≡ some (buf, m')
      → PartitionAfter m buf c.size m'
  from_class_item none buf m' e = λ h. absurd (cc)
  from_class_item (some (b, c')) buf m' e =
      let left : ClassAfter c b c' = class_alloc_item-after c b c' class_fits e in
      elim (Bool-cases (b == 0)) [
        | inl null ↦
            let z : b ≡ 0 = ground arith in
            rw null
              (alloc_new_slab-after m scid c c' w at (subst (λ x. ClassAfter c x c') z left) buf m')
        | inr there ↦ rw there (λ h.
            let e1 : b ≡ buf = ap (λ p. p.0) (some-injective _ _ h) in
            let e2 : record m { slab_classes = set_elem m.slab_classes scid c' } ≡ m' =
              ap (λ p. p.1) (some-injective _ _ h) in
            subst (λ x. PartitionAfter m x c.size m') e1
              (subst (PartitionAfter m b c.size) e2 record {
                owners = λ a. kept_le a b c' (left.owners a);
                fits = with-ClassFits c' left.fits;
              }))
      ]
    where
      kept_le :
          (a b : ℕ) (c' : SlabClass)
          → class_covers a c' + handed a b c.size ≤ class_covers a c
          → partition_covers a (record m { slab_classes = set_elem m.slab_classes scid c' })
              + handed a b c.size
            ≤ partition_covers a m
      kept_le a b c' h =
          omega (arith, h, sum_of-set_elem (class_covers a) m.slab_classes scid c c' at)

  -- ItemAlloc hands out bytes that the partition owned, and gives them up.
  pub item_alloc-after :
      (buf : ℕ) (m' : Partition)
      → item_alloc scid m ≡ some (buf, m')
      → PartitionAfter m buf c.size m'
  unfolding item_alloc
  item_alloc-after buf m' = rw at (from_class_item _ buf m' refl)

  free_owners :
      (a buf : ℕ) → class_covers a (class_free_item buf c) ≡ class_covers a c + covers a buf c.size
  unfolding class_free_item
  free_owners a buf = omega (arith, sum_of-append (λ p. covers a p c.size) c.free_list (buf ∷ []))

  class_free_item-ClassFits : (buf : ℕ) → ClassFits (class_free_item buf c)
  unfolding class_free_item
  class_free_item-ClassFits buf = class_fits

  pub record FreedAfter (buf : ℕ) (m' : Partition) : Type 0 where
    pub owners : (a : ℕ) → partition_covers a m' ≡ partition_covers a m + covers a buf c.size
    pub fits : PartitionFits m'

  -- FreeItem takes the bytes of the item back.
  pub free_item-after :
      (buf : ℕ) (m' : Partition) → free_item buf scid m ≡ some m' → FreedAfter buf m'
  unfolding free_item
  free_item-after buf m' = rw at (λ h. subst (FreedAfter buf) (some-injective _ _ h) record {
    owners = λ a. omega (
      arith,
      free_owners a buf,
      sum_of-set_elem (class_covers a) m.slab_classes scid c (class_free_item buf c) at,
    );
    fits = with-ClassFits (class_free_item buf c) (class_free_item-ClassFits buf);
  })
