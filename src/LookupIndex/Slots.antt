-- ===== src/LookupIndex/Slots.antt =====
-- Lookups after the operations that write a slot.
use bl_nova_lsm.Common.{
  ℕ, zero, suc, ◌%◌, ◌≡◌, refl, ap, false, ◌&&◌, some, List, [], ◌∷◌, ◌==◌, if◌then◌else◌, ◌>>=◌,
  length, get_elem?, set_elem, arith, Bool-cases, inl, inr,
}
use mathlib.Core.Path.{◌∙◌}
use bl_nova_lsm.LookupIndex.{LookupIndex, slot, lookup, insert_id, cas}

length-set_elem : (xs : List ℕ) (i y : ℕ) → length (set_elem xs i y) ≡ length xs
length-set_elem [] i y = refl
length-set_elem (x ∷ xs) zero y = refl
length-set_elem (x ∷ xs) (suc i) y = ap suc (length-set_elem xs i y)

get-set_elem :
    (xs : List ℕ) (i j x y : ℕ)
    → get_elem? xs i ≡ some x
    → get_elem? (set_elem xs i y) j ≡ (if i == j then some y else get_elem? xs j)
get-set_elem [] i j x y h = absurd (cc)
get-set_elem (z ∷ zs) zero zero x y h = refl
get-set_elem (z ∷ zs) zero (suc j) x y h =
    let other : (0 == suc j) ≡ false = ground arith in rw other refl
get-set_elem (z ∷ zs) (suc i) zero x y h =
    let other : (suc i == 0) ≡ false = ground arith in rw other refl
get-set_elem (z ∷ zs) (suc i) (suc j) x y h =
    let same : (i == j) ≡ (suc i == suc j) = ground arith in
    get-set_elem zs i j x y h ∙ ap (λ b. if b then some y else get_elem? zs j) same

-- A lookup after a write of a slot that is in the index.
written :
    (index : LookupIndex) (hash other x y : ℕ)
    → get_elem? index (slot index hash) ≡ some x
    → lookup other (set_elem index (slot index hash) y)
      ≡ (if slot index hash == slot index other then some y else lookup other index)
unfolding lookup
written index hash other x y h =
    ap (λ (n : ℕ). get_elem? (set_elem index (slot index hash) y) (other % n))
      (length-set_elem index (slot index hash) y)
    ∙ get-set_elem index (slot index hash) (slot index other) x y h

-- In an index that has the key's slot, a compare-exchange puts the new memtable where the expected one
-- was: a lookup of a key of the same slot then finds it, and any other lookup, and every lookup when
-- another memtable was there, finds what it found before.
pub lookup-cas :
    (index : LookupIndex) (hash other old current new : ℕ)
    → lookup hash index ≡ some old
    → (cas hash current new index >>= λ index'. lookup other index') ≡ (
        if (old == current) && (slot index hash == slot index other)
        then some new
        else lookup other index)
unfolding cas lookup
lookup-cas index hash other old current new h = elim (Bool-cases (old == current)) [
  | inl same ↦ rw (h, same) (written index hash other old new h)
  | inr differs ↦ rw (h, differs) refl
]

-- In an index that has the key's slot, a lookup after an insertion finds the memtable that was inserted
-- if its key has the same slot, and otherwise what it found before.
pub lookup-insert_id :
    (index : LookupIndex) (hash other old new : ℕ)
    → lookup hash index ≡ some old
    → (insert_id hash new index >>= λ index'. lookup other index')
      ≡ (if slot index hash == slot index other then some new else lookup other index)
unfolding insert_id lookup
lookup-insert_id index hash other old new h = rw h (written index hash other old new h)
