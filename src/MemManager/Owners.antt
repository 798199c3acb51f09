-- ===== src/MemManager/Owners.antt =====
-- How many of the allocator's parts an address belongs to, its owners.
use bl_nova_lsm.Common.{
  ℕ, zero, suc, ◌+◌, ◌-◌, ◌*◌, ◌%◌, ◌^◌, ◌≤◌, ◌<◌, ◌≡◌, refl, some, List, [], ◌∷◌, ◌++◌, ltb, leb,
  ◌==◌, ◌&&◌, if◌then◌else◌, get_elem?, set_elem, take, All, arith, Bool-cases, inl, inr,
}
use bl_nova_lsm.MemManager.{Slab, SlabClass, Partition, slab_alloc_item}

-- 1 when `a` is one of the `n` addresses from `start` on.
abbrev pub covers : ℕ → ℕ → ℕ → ℕ
covers a start n = if leb start a && ltb a (start + n) then 1 else 0

pub covers_split : (a s m n : ℕ) → covers a s (m + n) ≡ covers a s m + covers a (s + m) n
covers_split a s m n = ground arith

pub covers_mono : (a s m n : ℕ) → m ≤ n → covers a s m ≤ covers a s n
covers_mono a s m n h = ground arith

module _ {A : Type 0} where
  abbrev pub sum_of : (A → ℕ) → List A → ℕ
  sum_of f [] = 0
  sum_of f (x ∷ xs) = f x + sum_of f xs

  pub sum_of-append : (f : A → ℕ) (xs ys : List A) → sum_of f (xs ++ ys) ≡ sum_of f xs + sum_of f ys
  sum_of-append f [] ys = omega arith
  sum_of-append f (x ∷ xs) ys = omega (arith, sum_of-append f xs ys)

  pub sum_of-set_elem :
      (f : A → ℕ) (xs : List A) (i : ℕ) (x y : A)
      → get_elem? xs i ≡ some x
      → sum_of f (set_elem xs i y) + f x ≡ sum_of f xs + f y
  sum_of-set_elem f [] i x y h = absurd (cc)
  sum_of-set_elem f (z ∷ zs) zero x y h = let e : f z ≡ f x = cc in omega (arith, e)
  sum_of-set_elem f (z ∷ zs) (suc i) x y h = omega (arith, sum_of-set_elem f zs i x y h)

  pub sum_of-take-suc :
      (f : A → ℕ) (xs : List A) (i : ℕ) (x : A)
      → get_elem? xs i ≡ some x
      → sum_of f (take (suc i) xs) ≡ sum_of f (take i xs) + f x
  sum_of-take-suc f [] i x h = absurd (cc)
  sum_of-take-suc f (z ∷ zs) zero x h = let e : f z ≡ f x = cc in omega (arith, e)
  sum_of-take-suc f (z ∷ zs) (suc i) x h = omega (arith, sum_of-take-suc f zs i x h)

  pub sum_of-take-le : (f : A → ℕ) (n : ℕ) (xs : List A) → sum_of f (take n xs) ≤ sum_of f xs
  sum_of-take-le f zero xs = omega arith
  sum_of-take-le f (suc n) [] = omega arith
  sum_of-take-le f (suc n) (x ∷ xs) = omega (arith, sum_of-take-le f n xs)

  pub All-set_elem :
      (P : A → Type 0) (xs : List A) (i : ℕ) (y : A) → All P xs → P y → All P (set_elem xs i y)
  All-set_elem P [] i y h p = tt
  All-set_elem P (x ∷ xs) zero y h p = (p, h.1)
  All-set_elem P (x ∷ xs) (suc i) y h p = (h.0, All-set_elem P xs i y h.1 p)

  pub All-snoc : (P : A → Type 0) (xs : List A) (y : A) → All P xs → P y → All P (xs ++ (y ∷ []))
  All-snoc P [] y h p = (p, tt)
  All-snoc P (x ∷ xs) y h p = (h.0, All-snoc P xs y h.1 p)

-- What a slab still has to give.
abbrev pub slab_covers : ℕ → Slab → ℕ
slab_covers a s = covers a s.next s.available_bytes

abbrev pub class_covers : ℕ → SlabClass → ℕ
class_covers a c = sum_of (slab_covers a) c.slabs + sum_of (λ p. covers a p c.size) c.free_list

-- A free slab has the whole of its size.
abbrev pub whole : ℕ → ℕ → Slab → ℕ
whole a size s = covers a s.next size

abbrev pub slab_bytes : ℕ → ℕ
slab_bytes mb = mb * 1048576 % 2 ^ 64

abbrev pub partition_covers : ℕ → Partition → ℕ
partition_covers a m =
    sum_of (class_covers a) m.slab_classes
    + sum_of (whole a (slab_bytes m.slab_size_mb))
        (take ((m.free_slab_index + 1) % 2 ^ 64) m.free_slabs)

-- What a pointer that was returned owns: nothing if it is nullptr.
abbrev pub handed : ℕ → ℕ → ℕ → ℕ
handed a buf n = if buf == 0 then 0 else covers a buf n

-- The slabs of a class are cut into items of its size.
abbrev pub ClassFits : SlabClass → Type 0
ClassFits c = (c.size < 2 ^ 32) × All (λ (s : Slab). s.item_size ≡ c.size) c.slabs

pub slab_alloc_item_owners :
    (a : ℕ) (s : Slab)
    → slab_covers a (slab_alloc_item s).1 + handed a (slab_alloc_item s).0 s.item_size
      ≤ slab_covers a s
unfolding slab_alloc_item
slab_alloc_item_owners a s = elim (Bool-cases (ltb s.available_bytes s.item_size)) [
  | inl full ↦ rw full (omega arith)
  | inr room ↦
      rw room (ground (arith, covers_split a s.next s.item_size (s.available_bytes - s.item_size)))
]

pub slab_alloc_item_size : (s : Slab) → (slab_alloc_item s).1.item_size ≡ s.item_size
unfolding slab_alloc_item
slab_alloc_item_size s = elim (Bool-cases (ltb s.available_bytes s.item_size)) [
  | inl full ↦ rw full refl
  | inr room ↦ rw room refl
]
