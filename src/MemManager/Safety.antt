-- ===== src/MemManager/Safety.antt =====
-- What a client of a partition may rely on, whatever the clients did before.
use bl_nova_lsm.Common.{
  ℕ, zero, suc, ◌+◌, ◌*◌, ◌/◌, ◌%◌, ◌^◌, ◌≤◌, ◌<◌, ◌≡◌, ◌≢◌, ◌⊎◌, inl, inr, Bool-cases, refl, ap,
  some, List, [], ◌∷◌, ltb, get_elem?, arith,
}
use native.Mathlib.Nat.{div-mul-le_self}
use bl_nova_lsm.MemManager.{max_number_of_slab_classes, minus_one, new_slabs, new_partition}
use bl_nova_lsm.MemManager.Owners.{covers, covers_mono, sum_of-take-le, whole, slab_bytes}
use bl_nova_lsm.MemManager.Disjoint.{
  Held, Reachable, Owned, items_cover, Reachable-Owned, classes_fit, classes_own_nothing,
  slabs_same, slabs_in_buffer,
}

-- A new partition, of which nothing is handed out yet.
abbrev pub fresh : ℕ → ℕ → ℕ → Held
fresh buf data_size slab_size_mb = record {
  partition = new_partition buf data_size slab_size_mb;
  items = [];
}

fresh-Owned :
    (buf data_size mb : ℕ) → mb * 1048576 < 2 ^ 32 → Owned buf data_size (fresh buf data_size mb)
unfolding new_partition
fresh-Owned buf data_size mb h =
    let size = slab_bytes mb in
    let n = data_size / size in
    record {
      fits = record {
        classes_fit = classes_fit max_number_of_slab_classes 1200 size (omega arith) (omega arith);
        slabs_same = slabs_same n buf size mb;
        index_fits = omega arith;
      };
      one_owner = λ a. omega (
        arith,
        classes_own_nothing a max_number_of_slab_classes 1200 size,
        sum_of-take-le (whole a size) (((n + minus_one) % 2 ^ 64 + 1) % 2 ^ 64)
            (new_slabs n buf size mb),
        slabs_in_buffer a n buf size mb,
        covers_mono a buf (n * size) data_size (div-mul-le_self data_size size),
      );
    }

covered_at :
    (a : ℕ) (items : List (ℕ × ℕ)) (i p n : ℕ)
    → get_elem? items i ≡ some (p, n)
    → p ≤ a
    → a < p + n
    → 1 ≤ items_cover a items
covered_at a [] i p n e l r = absurd (cc)
covered_at a ((q, k) ∷ items) zero p n e l r =
    let e1 : q ≡ p = cc in let e2 : k ≡ n = cc in ground arith
covered_at a (x ∷ items) (suc i) p n e l r = omega (arith, covered_at a items i p n e l r)

-- Two items that hold the same address, under at most one cover, are one.
one_item :
    (a : ℕ) (items : List (ℕ × ℕ)) (i j p n q k : ℕ)
    → items_cover a items ≤ 1
    → get_elem? items i ≡ some (p, n)
    → get_elem? items j ≡ some (q, k)
    → p ≤ a
    → a < p + n
    → q ≤ a
    → a < q + k
    → i ≡ j
one_item a [] i j p n q k once ei ej li ri lj rj = absurd (cc)
one_item a (x ∷ items) zero zero p n q k once ei ej li ri lj rj = refl
one_item a (x ∷ items) (suc i) (suc j) p n q k once ei ej li ri lj rj =
    ap suc (one_item a items i j p n q k (omega arith) ei ej li ri lj rj)
one_item a ((u, v) ∷ items) zero (suc j) p n q k once ei ej li ri lj rj =
    let e1 : u ≡ p = cc in
    let e2 : v ≡ n = cc in
    let later : 1 ≤ items_cover a items = covered_at a items j q k ej lj rj in ground arith
one_item a ((u, v) ∷ items) (suc i) zero p n q k once ei ej li ri lj rj =
    let e1 : u ≡ q = cc in
    let e2 : v ≡ k = cc in
    let later : 1 ≤ items_cover a items = covered_at a items i p n ei li ri in ground arith

covers-le-one : (a p n : ℕ) → covers a p n ≤ 1
covers-le-one a p n = ground arith

outside : (a q k : ℕ) (A : Type 0) → (q ≤ a → a < q + k → A) → A ⊎ ((a < q) ⊎ (q + k ≤ a))
outside a q k A f = elim (Bool-cases (ltb a q)) [
  | inl left ↦ inr (inl (ground arith))
  | inr above ↦ elim (Bool-cases (ltb a (q + k))) [
    | inl below ↦ inl (f (ground arith) (ground arith))
    | inr right ↦ inr (inr (ground arith))
  ]
]

-- Whatever allocations and releases came before on a partition whose slabs are smaller than 4 GB,
-- two different items that clients hold share no address: one of the first lies below or behind
-- the second.
pub no_overlap :
    (buf data_size slab_size_mb : ℕ) (s : Held) (a i j p n q k : ℕ)
    → slab_size_mb * 1048576 < 2 ^ 32
    → Reachable (fresh buf data_size slab_size_mb) s
    → get_elem? s.items i ≡ some (p, n)
    → get_elem? s.items j ≡ some (q, k)
    → i ≢ j
    → p ≤ a
    → a < p + n
    → (a < q) ⊎ (q + k ≤ a)
no_overlap buf data_size mb s a i j p n q k small r ei ej other li ri =
    let w : Owned buf data_size s =
      Reachable-Owned buf data_size (fresh buf data_size mb) s (fresh-Owned buf data_size mb small)
        r in
    let once : items_cover a s.items ≤ 1 =
      omega (arith, w.one_owner a, covers-le-one a buf data_size) in
    elim (outside a q k (i ≡ j) λ lj rj. one_item a s.items i j p n q k once ei ej li ri lj rj) [
      | inl same ↦ absurd (other same)
      | inr apart ↦ apart
    ]

-- Whatever allocations and releases came before on a partition whose slabs are smaller than 4 GB,
-- every address of an item that a client holds lies in the buffer of the partition.
pub items_in_buffer :
    (buf data_size slab_size_mb : ℕ) (s : Held) (a i p n : ℕ)
    → slab_size_mb * 1048576 < 2 ^ 32
    → Reachable (fresh buf data_size slab_size_mb) s
    → get_elem? s.items i ≡ some (p, n)
    → p ≤ a
    → a < p + n
    → (buf ≤ a) × (a < buf + data_size)
items_in_buffer buf data_size mb s a i p n small r e l h =
    let w : Owned buf data_size s =
      Reachable-Owned buf data_size (fresh buf data_size mb) s (fresh-Owned buf data_size mb small)
        r in
    let held : 1 ≤ items_cover a s.items = covered_at a s.items i p n e l h in
    let inside : 1 ≤ covers a buf data_size = omega (arith, w.one_owner a, held) in ground arith
