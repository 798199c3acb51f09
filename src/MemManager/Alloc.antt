-- ===== src/MemManager/Alloc.antt =====
-- The owners of an address before and after the parts of an allocation.
use bl_nova_lsm.Common.{
  ℕ, suc, ◌+◌, ◌*◌, ◌/◌, ◌%◌, ◌^◌, ◌≤◌, ◌<◌, ◌≡◌, ◌≢◌, refl, ap, sym, true, Option, none, some,
  List, [], ◌∷◌, ◌==◌, ◌>>=◌, get_elem?, set_elem, take, All, arith, Bool-cases, inl, inr,
}
use mathlib.Core.Path.{subst, ◌∙◌}
use native.Mathlib.Nat.{mod-le, mul-le-mul_left, mul-div-le}
use mathlib.Core.Option.{some-injective}
use bl_nova_lsm.Common.Ordered.{All-get}
use bl_nova_lsm.MemManager.{
  Slab, SlabClass, Partition, init_slab, slab_alloc_item, alloc_from_last, alloc_from_class,
  class_alloc_item, add_slab, minus_one, alloc_new_slab,
}
use bl_nova_lsm.MemManager.Owners.{
  covers, covers_mono, sum_of, sum_of-append, sum_of-set_elem, sum_of-take-suc, All-set_elem,
  All-snoc, slab_covers, class_covers, whole, slab_bytes, partition_covers, handed, ClassFits,
  slab_alloc_item_owners, slab_alloc_item_size,
}

alloc_from_last_owners :
    (a n : ℕ) (ss : List Slab)
    → All (λ (s : Slab). s.item_size ≡ n) ss
    → sum_of (slab_covers a) (alloc_from_last ss).1 + handed a (alloc_from_last ss).0 n
      ≤ sum_of (slab_covers a) ss
unfolding alloc_from_last
alloc_from_last_owners a n [] h = omega arith
alloc_from_last_owners a n (s ∷ []) h =
    let e : handed a (slab_alloc_item s).0 s.item_size ≡ handed a (slab_alloc_item s).0 n =
      ap (handed a (slab_alloc_item s).0) h.0 in
    omega (arith, slab_alloc_item_owners a s, e)
alloc_from_last_owners a n (s ∷ t ∷ ss) h = omega (arith, alloc_from_last_owners a n (t ∷ ss) h.1)

alloc_from_last_sizes :
    (n : ℕ) (ss : List Slab)
    → All (λ (s : Slab). s.item_size ≡ n) ss
    → All (λ (s : Slab). s.item_size ≡ n) (alloc_from_last ss).1
unfolding alloc_from_last
alloc_from_last_sizes n [] h = tt
alloc_from_last_sizes n (s ∷ []) h = (slab_alloc_item_size s ∙ h.0, tt)
alloc_from_last_sizes n (s ∷ t ∷ ss) h = (h.0, alloc_from_last_sizes n (t ∷ ss) h.1)

-- What an allocation from a class leaves it with.
pub record ClassAfter (c : SlabClass) (buf : ℕ) (c' : SlabClass) : Type 0 where
  pub owners : (a : ℕ) → class_covers a c' + handed a buf c.size ≤ class_covers a c
  pub same_size : c'.size ≡ c.size
  pub fits : ClassFits c'

from_class :
    (free : List ℕ) (c : SlabClass) (buf : ℕ) (c' : SlabClass)
    → c.free_list ≡ free
    → ClassFits c
    → alloc_from_class free c ≡ some (buf, c')
    → ClassAfter c buf c'
unfolding alloc_from_class
from_class [] c buf c' e w = λ h.
    let given = alloc_from_last c.slabs in
    let e1 : given.0 ≡ buf = ap (λ p. p.0) (some-injective _ _ h) in
    let e2 : record c { slabs = given.1 } ≡ c' = ap (λ p. p.1) (some-injective _ _ h) in
    subst (λ b. ClassAfter c b c') e1
      (subst (ClassAfter c given.0) e2 record {
        owners = λ a. omega (arith, alloc_from_last_owners a c.size c.slabs w.1);
        same_size = refl;
        fits = (w.0, alloc_from_last_sizes c.size c.slabs w.1);
      })
from_class (ptr ∷ ptrs) c buf c' e w = elim (Bool-cases (ptr == 0)) [
  | inl null ↦ rw null (λ h. absurd (cc))
  | inr there ↦ rw there (λ h.
      let e1 : ptr ≡ buf = ap (λ p. p.0) (some-injective _ _ h) in
      let e2 : record c { free_list = ptrs } ≡ c' = ap (λ p. p.1) (some-injective _ _ h) in
      subst (λ b. ClassAfter c b c') e1
        (subst (ClassAfter c ptr) e2 record {
          owners = λ a.
              let all : sum_of (λ p. covers a p c.size) c.free_list
                  ≡ covers a ptr c.size + sum_of (λ p. covers a p c.size) ptrs =
                ap (sum_of (λ p. covers a p c.size)) e in
              let mine : handed a ptr c.size ≡ covers a ptr c.size = rw there refl in
              omega (arith, all, mine);
          same_size = refl;
          fits = w;
        }))
]

pub class_alloc_item-after :
    (c : SlabClass) (buf : ℕ) (c' : SlabClass)
    → ClassFits c
    → class_alloc_item c ≡ some (buf, c')
    → ClassAfter c buf c'
unfolding class_alloc_item
class_alloc_item-after c buf c' w h = from_class c.free_list c buf c' refl w h

items_fit : (n size : ℕ) → n * (size / n % 2 ^ 32) % 2 ^ 32 ≤ size
items_fit n size = omega (
  arith,
  mod-le (n * (size / n % 2 ^ 32)) (2 ^ 32),
  mul-le-mul_left n (mod-le (size / n) (2 ^ 32)),
  mul-div-le size n,
)

-- A fresh slab, cut into items, owns no more than it did.
init_slab_owners :
    (a n : ℕ) (s : Slab) → slab_covers a (init_slab n s) ≤ whole a (slab_bytes s.slab_size_mb) s
unfolding init_slab
init_slab_owners a n s =
    let size = slab_bytes s.slab_size_mb in
    covers_mono a s.next (n * (size / n % 2 ^ 32) % 2 ^ 32) size (items_fit n size)

pub record PartitionFits (m : Partition) : Type 0 where
  pub classes_fit : All ClassFits m.slab_classes
  pub slabs_same : All (λ (s : Slab). s.slab_size_mb ≡ m.slab_size_mb) m.free_slabs
  pub index_fits : m.free_slab_index < 2 ^ 64

-- What an allocation leaves the partition with: `n` is the size of the class.
pub record PartitionAfter (m : Partition) (buf n : ℕ) (m' : Partition) : Type 0 where
  pub owners : (a : ℕ) → partition_covers a m' + handed a buf n ≤ partition_covers a m
  pub fits : PartitionFits m'

init_slab_item_size : (n : ℕ) (s : Slab) → (init_slab n s).item_size ≡ n
unfolding init_slab
init_slab_item_size n s = refl

-- The free slabs before and after the last one is taken.
taken :
    (a : ℕ) (m : Partition) (slab : Slab)
    → m.free_slab_index < 2 ^ 64
    → m.free_slab_index ≢ minus_one
    → get_elem? m.free_slabs m.free_slab_index ≡ some slab
    → sum_of
        (whole a (slab_bytes m.slab_size_mb))
        (take ((m.free_slab_index + 1) % 2 ^ 64) m.free_slabs)
      ≡ sum_of
          (whole a (slab_bytes m.slab_size_mb))
          (take (((m.free_slab_index + minus_one) % 2 ^ 64 + 1) % 2 ^ 64) m.free_slabs)
        + whole a (slab_bytes m.slab_size_mb) slab
taken a m slab h there e =
    let f = whole a (slab_bytes m.slab_size_mb) in
    let i = m.free_slab_index in
    let before : (i + 1) % 2 ^ 64 ≡ suc i = omega arith in
    let after : ((i + minus_one) % 2 ^ 64 + 1) % 2 ^ 64 ≡ i = omega arith in
    ap (λ k. sum_of f (take k m.free_slabs)) before
    ∙ sum_of-take-suc f m.free_slabs i slab e
    ∙ ap (λ k. sum_of f (take k m.free_slabs) + f slab) (sym after)

added :
    (new old was now kept slab given whole_slab whole_free before after : ℕ)
    → new + was ≡ old + now
    → now ≡ kept + slab
    → kept ≤ was
    → slab + given ≤ whole_slab
    → whole_slab ≤ whole_free
    → before ≡ after + whole_free
    → (new + after) + given ≤ old + before
added new old was now kept slab given whole_slab whole_free before after e1 e2 l1 l2 l3 e3 =
    omega arith

added_slab :
    (a : ℕ) (s : Slab) (c : SlabClass)
    → class_covers a (add_slab s c) ≡ class_covers a c + slab_covers a s
unfolding add_slab
added_slab a s c = omega (arith, sum_of-append (slab_covers a) c.slabs (s ∷ []))

module _ (m : Partition) (scid : ℕ) (c c' : SlabClass) (w : PartitionFits m)
    (at : get_elem? m.slab_classes scid ≡ some c) (left : ClassAfter c 0 c') where
  abbrev cut : Slab → Slab
  cut slab = init_slab (c'.size % 2 ^ 32) slab

  abbrev with_slab : Slab → Partition
  with_slab slab = record m {
    slab_classes = set_elem m.slab_classes scid (add_slab (slab_alloc_item (cut slab)).1 c');
    free_slab_index = (m.free_slab_index + minus_one) % 2 ^ 64;
  }

  cut_size : (slab : Slab) → (cut slab).item_size ≡ c.size
  cut_size slab =
      let small : c'.size < 2 ^ 32 = left.fits.0 in
      init_slab_item_size (c'.size % 2 ^ 32) slab ∙ omega (arith, left.same_size, small)

  with_slab_owners :
      (slab : Slab) (a : ℕ)
      → m.free_slab_index ≢ minus_one
      → get_elem? m.free_slabs m.free_slab_index ≡ some slab
      → partition_covers a (with_slab slab) + handed a (slab_alloc_item (cut slab)).0 c.size
        ≤ partition_covers a m
  unfolding add_slab
  with_slab_owners slab a there e =
      let s' = slab_alloc_item (cut slab) in
      let same_mb : slab.slab_size_mb ≡ m.slab_size_mb =
        All-get (λ (s : Slab). s.slab_size_mb ≡ m.slab_size_mb) m.free_slabs m.free_slab_index slab
          w.slabs_same e in
      let cut_le : slab_covers a (cut slab) ≤ whole a (slab_bytes m.slab_size_mb) slab =
        subst (λ b. slab_covers a (cut slab) ≤ whole a (slab_bytes b) slab) same_mb
          (init_slab_owners a (c'.size % 2 ^ 32) slab) in
      let given_le : slab_covers a s'.1 + handed a s'.0 c.size ≤ slab_covers a (cut slab) =
        subst (λ n. slab_covers a s'.1 + handed a s'.0 n ≤ slab_covers a (cut slab)) (cut_size slab)
          (slab_alloc_item_owners a (cut slab)) in
      added (sum_of (class_covers a) (set_elem m.slab_classes scid (add_slab s'.1 c')))
        (sum_of (class_covers a) m.slab_classes) (class_covers a c)
        (class_covers a (add_slab s'.1 c')) (class_covers a c') (slab_covers a s'.1)
        (handed a s'.0 c.size) (slab_covers a (cut slab)) (whole a (slab_bytes m.slab_size_mb) slab)
        _ _ (sum_of-set_elem (class_covers a) m.slab_classes scid c (add_slab s'.1 c') at)
        (added_slab a s'.1 c') (omega (arith, left.owners a)) given_le cut_le
        (taken a m slab w.index_fits there e)

  with_slab-PartitionFits : (slab : Slab) → PartitionFits (with_slab slab)
  unfolding add_slab
  with_slab-PartitionFits slab = record {
    classes_fit = All-set_elem ClassFits m.slab_classes scid _ w.classes_fit (
      left.fits.0,
      All-snoc (λ (s : Slab). s.item_size ≡ c'.size) c'.slabs _ left.fits.1
          (slab_alloc_item_size (cut slab) ∙ cut_size slab ∙ sym left.same_size),
    );
    slabs_same = w.slabs_same;
    index_fits = omega arith;
  }

  from_new_slab :
      (o : Option Slab) (buf : ℕ) (m' : Partition)
      → get_elem? m.free_slabs m.free_slab_index ≡ o
      → m.free_slab_index ≢ minus_one
      → ◌>>=◌ {B = ℕ × Partition} o (λ slab. some ((slab_alloc_item (cut slab)).0, with_slab slab))
        ≡ some (buf, m')
      → PartitionAfter m buf c.size m'
  from_new_slab none buf m' e there h = absurd (cc)
  from_new_slab (some slab) buf m' e there h =
      let e1 : (slab_alloc_item (cut slab)).0 ≡ buf = ap (λ p. p.0) (some-injective _ _ h) in
      let e2 : with_slab slab ≡ m' = ap (λ p. p.1) (some-injective _ _ h) in
      subst (λ b. PartitionAfter m b c.size m') e1
        (subst (PartitionAfter m (slab_alloc_item (cut slab)).0 c.size) e2 record {
          owners = λ a. with_slab_owners slab a there e;
          fits = with_slab-PartitionFits slab;
        })

  pub alloc_new_slab-after :
      (buf : ℕ) (m' : Partition)
      → alloc_new_slab scid c' m ≡ some (buf, m')
      → PartitionAfter m buf c.size m'
  unfolding alloc_new_slab
  alloc_new_slab-after buf m' = elim (Bool-cases (m.free_slab_index == minus_one)) [
    | inl empty ↦ rw empty (λ h.
        let e1 : 0 ≡ buf = ap (λ p. p.0) (some-injective _ _ h) in
        let e2 : record m { print_class_oom = true } ≡ m' = ap (λ p. p.1) (some-injective _ _ h) in
        subst (λ b. PartitionAfter m b c.size m') e1
          (subst (PartitionAfter m 0 c.size) e2 record {
            owners = λ a. omega arith;
            fits = record {
              classes_fit = w.classes_fit;
              slabs_same = w.slabs_same;
              index_fits = w.index_fits;
            };
          }))
    | inr there ↦ rw there (λ h. from_new_slab _ buf m' refl (ground arith) h)
  ]
