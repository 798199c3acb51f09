-- ===== src/MemManager/Classes.antt =====
-- The size classes and the choice of one by slabclassid.
use bl_nova_lsm.Common.{
  ℕ, zero, suc, ◌+◌, ◌*◌, ◌/◌, ◌%◌, ◌^◌, ◌≤◌, ◌<◌, ◌≡◌, refl, ap, true, false, some, List, [], ◌∷◌,
  if◌then◌else◌, ltb, leb, get_elem?, arith, Bool-cases, inl, inr,
}
use mathlib.Core.Path.{◌∙◌}
use mathlib.Core.Option.{some-injective}
use bl_nova_lsm.MemManager.{
  SlabClass, max_number_of_slab_classes, new_classes, first_fitting, new_partition, slabclassid,
}

-- The class of number `res` is the first whose items have `size` bytes at least.
pub record Fits (classes : List SlabClass) (size res : ℕ) : Type 0 where
  pub slab_class : SlabClass
  pub class_at : get_elem? classes res ≡ some slab_class
  pub large_enough : size ≤ slab_class.size
  pub smallest : (i : ℕ) (c : SlabClass) → i < res → get_elem? classes i ≡ some c → c.size < size

-- How far `n` doublings reach.
abbrev reach : ℕ → ℕ → ℕ
reach zero size = size
reach (suc n) size = reach n (size * 2)

reach-le : (n size : ℕ) → size ≤ reach n size
reach-le zero size = omega arith
reach-le (suc n) size = omega (arith, reach-le n (size * 2))

abbrev following : ℕ → ℕ → ℕ
following size slab_size =
    if ltb slab_size (size * 2 % 2 ^ 64) then slab_size else (size * 2 % 2 ^ 64)

following_reaches :
    (n size slab_size : ℕ)
    → size < slab_size
    → slab_size < 2 ^ 63
    → slab_size ≤ reach n (size * 2)
    → slab_size ≤ reach n (following size slab_size)
following_reaches n size slab_size h k l =
    let fits : size * 2 % 2 ^ 64 ≡ size * 2 = omega arith in
    elim (Bool-cases (ltb slab_size (size * 2 % 2 ^ 64))) [
      | inl over ↦ rw over (reach-le n slab_size)
      | inr under ↦ rw under (rw fits l)
    ]

abbrev class_of : ℕ → ℕ → SlabClass
class_of size slab_size = record {
  nitems_per_slab = slab_size / size;
  size = size;
  slabs = [];
  free_list = [];
}

Fits-later :
    (c : SlabClass) (cs : List SlabClass) (request k : ℕ)
    → c.size < request
    → Fits cs request k
    → Fits (c ∷ cs) request (suc k)
Fits-later c cs request k small w = record {
  slab_class = w.slab_class;
  class_at = w.class_at;
  large_enough = w.large_enough;
  smallest = below;
}
  where
    below : (i : ℕ) (d : SlabClass) → i < suc k → get_elem? (c ∷ cs) i ≡ some d → d.size < request
    below zero d h e =
        let same : c.size ≡ d.size = ap SlabClass.size (some-injective _ _ e) in omega (arith, same)
    below (suc i) d h e = w.smallest i d (omega arith) e

Fits-here :
    (c : SlabClass) (cs : List SlabClass) (request : ℕ) → request ≤ c.size → Fits (c ∷ cs) request 0
Fits-here c cs request h = record {
  slab_class = c;
  class_at = refl;
  large_enough = h;
  smallest = λ i d l e. absurd (omega arith);
}

-- The search from class number `start` on; `k` is the position.
abbrev Found : List SlabClass → ℕ → ℕ → ℕ → Type 0
Found cs request start last =
    (k : ℕ) × (first_fitting cs request start ≡ some (start + k)) × Fits cs request k × (k ≤ last)

first_fitting-Found :
    (n size slab_size request start : ℕ)
    → request ≤ slab_size
    → slab_size < 2 ^ 63
    → slab_size ≤ reach n size
    → Found (new_classes (suc n) size slab_size) request start n
unfolding first_fitting new_classes
first_fitting-Found zero size slab_size request start h k l =
    let fits : ltb size request ≡ false = ground arith in
    (
      0,
      rw fits (ap some (omega arith)),
      Fits-here (class_of size slab_size) _ request (omega arith),
      omega arith,
    )
first_fitting-Found (suc n) size slab_size request start h k l =
    elim (Bool-cases (ltb size request)) [
      | inr fits ↦ (
        0,
        rw fits (ap some (omega arith)),
        Fits-here (class_of size slab_size) _ request (ground arith),
        omega arith,
      )
      | inl small ↦
          let less : size < request = ground arith in
          let (k', e, w, b) =
            first_fitting-Found n (following size slab_size) slab_size request (start + 1) h k
              (following_reaches n size slab_size (omega arith) k l) in
          (
            suc k',
            rw small (e ∙ ap some (omega arith)),
            Fits-later (class_of size slab_size) _ request k' less w,
            omega arith,
          )
    ]

from_zero :
    (cs : List SlabClass) (request last : ℕ)
    → Found cs request 0 last
    → (scid : ℕ) × (first_fitting cs request 0 ≡ some scid)
      × Fits cs request scid
      × (scid < suc last)
from_zero cs request last (k, e, w, b) = (k, e ∙ ap some (omega arith), w, omega arith)

-- On a new partition with slabs smaller than 2 ^ 63 bytes, a request of at least one byte and at
-- most a slab gets a class, one of the 64 of the array: it is large enough, and every class before
-- it is too small.
pub slabclassid-Fits :
    (buf data_size slab_size_mb request : ℕ)
    → slab_size_mb * 1048576 < 2 ^ 63
    → 0 < request
    → request ≤ slab_size_mb * 1048576
    → (scid : ℕ) × (slabclassid request (new_partition buf data_size slab_size_mb) ≡ some scid)
      × Fits (new_partition buf data_size slab_size_mb).slab_classes request scid
      × (scid < max_number_of_slab_classes)
unfolding slabclassid new_partition
slabclassid-Fits buf data_size mb request small some_byte within =
    let size : mb * 1048576 % 2 ^ 64 ≡ mb * 1048576 = omega arith in
    let positive : ltb 0 request ≡ true = ground arith in
    let fits : leb request (mb * 1048576 % 2 ^ 64) ≡ true = ground arith in
    let (k, e, w, b) = from_zero _ request 63 (
      first_fitting-Found 63 1200 (mb * 1048576 % 2 ^ 64) request 0 (omega arith) (omega arith)
        (omega arith)) in
    (k, rw (positive, fits) e, w, b)
