-- ===== src/Memtables/Partition/Recorded.antt =====
-- The partition as the set of the memtables that were added and not removed.
use bl_nova_lsm.Common.{
  ℕ, ◌<◌, ◌≡◌, refl, Bool, true, false, not, ◌&&◌, ◌||◌, some, List, [], ◌∷◌, ◌==◌, arith,
  Bool-cases, inl, inr, All, bind-some,
}
use mathlib.Core.Path.{subst}
use mathlib.Core.Option.{some-injective}
use bl_nova_lsm.Common.Sets.{
  insert, erase, contains, IsAscending, contains-insert, contains-erase, insert-IsAscending,
  erase-IsAscending,
}
use bl_nova_lsm.Memtables.{is_empty}
use bl_nova_lsm.Memtables.Partition.{Generations, add_memtable, unless_empty, remove_memtable}

-- The memtable is counted under the generation.
unfoldable pub recorded : Generations → ℕ → ℕ → Bool
recorded [] gen id = false
recorded ((g, ids) ∷ rest) gen id = (g == gen && contains ids id) || recorded rest gen id

abbrev pub KeysAfter : ℕ → Generations → Type 0
KeysAfter g = All (λ p. g < p.0)

-- The map has each generation once and in order, with a set that is not empty.
abbrev pub IsCounted : Generations → Type 0
IsCounted [] = Unit
IsCounted ((g, ids) ∷ rest) =
    IsAscending ids × (is_empty ids ≡ false) × KeysAfter g rest × IsCounted rest

KeysAfter-mono : (f g : ℕ) (m : Generations) → f < g → KeysAfter g m → KeysAfter f m
KeysAfter-mono f g [] h k = tt
KeysAfter-mono f g (p ∷ ps) h k = (omega (arith, k.0), KeysAfter-mono f g ps h k.1)

unrecorded : (m : Generations) (g i : ℕ) → KeysAfter g m → recorded m g i ≡ false
unfolding recorded
unrecorded [] g i k = refl
unrecorded ((f, ids) ∷ rest) g i k = ground (arith, k.0, unrecorded rest g i k.1)

add-KeysAfter :
    (f gen id : ℕ) (m : Generations) → f < gen → KeysAfter f m → KeysAfter f (add_memtable gen id m)
unfolding add_memtable
add-KeysAfter f gen id [] h k = (h, tt)
add-KeysAfter f gen id ((g, ids) ∷ rest) h k = ground (arith, k, add-KeysAfter f gen id rest h k.1)

insert_filled : (x : ℕ) (s : List ℕ) → is_empty (insert x s) ≡ false
unfolding insert
insert_filled x [] = refl
insert_filled x (y ∷ ys) = ground arith

pub add_memtable-IsCounted :
    (gen id : ℕ) (m : Generations) → IsCounted m → IsCounted (add_memtable gen id m)
unfolding add_memtable
add_memtable-IsCounted gen id [] w = ((tt, tt), refl, tt, tt)
add_memtable-IsCounted gen id ((g, ids) ∷ rest) w = ground (
  arith,
  KeysAfter-mono gen g rest,
  insert-IsAscending id ids,
  insert_filled id ids,
  add-KeysAfter g gen id rest,
  add_memtable-IsCounted gen id rest,
)

pub recorded-add_memtable :
    (gen id : ℕ) (m : Generations) (g i : ℕ)
    → recorded (add_memtable gen id m) g i ≡ ((gen == g && id == i) || recorded m g i)
unfolding add_memtable recorded contains
recorded-add_memtable gen id [] g i = ground arith
recorded-add_memtable gen id ((f, ids) ∷ rest) g i =
    ground (arith, contains-insert id i ids, recorded-add_memtable gen id rest g i)

-- What RemoveMemTable leaves.
pub record Removed (gen id : ℕ) (m m' : Generations) : Type 0 where
  pub counted : IsCounted m'
  pub after : (f : ℕ) → KeysAfter f m → KeysAfter f m'
  pub left : (g i : ℕ) → recorded m' g i ≡ (not (gen == g && id == i) && recorded m g i)

empty_contains : (s : List ℕ) (i : ℕ) → is_empty s ≡ true → contains s i ≡ false
unfolding contains
empty_contains [] i e = refl
empty_contains (x ∷ xs) i e = absurd (cc)

Removed-here :
    (gen id g : ℕ) (ids : List ℕ) (rest : Generations)
    → IsCounted ((g, ids) ∷ rest)
    → gen ≡ g
    → Removed gen id ((g, ids) ∷ rest) (unless_empty g (erase id ids) rest)
unfolding recorded
Removed-here gen id g ids rest w same = elim (Bool-cases (is_empty (erase id ids))) [
  | inl empty ↦ rw empty record {
    counted = w.3;
    after = λ f k. k.1;
    left = λ h i. ground (
      arith,
      same,
      contains-erase id i ids w.0,
      empty_contains (erase id ids) i empty,
      unrecorded rest g i w.2,
    );
  }
  | inr filled ↦ rw filled record {
    counted = (erase-IsAscending id ids w.0, filled, w.2, w.3);
    after = λ f k. k;
    left = λ h i. ground (arith, same, contains-erase id i ids w.0, unrecorded rest g i w.2);
  }
]

-- After RemoveMemTable on a partition, exactly the memtable is no longer counted under the
-- generation, and no generation is left without a memtable.
pub remove_memtable-Removed :
    (gen id : ℕ) (m m' : Generations)
    → IsCounted m
    → remove_memtable gen id m ≡ some m'
    → Removed gen id m m'
unfolding remove_memtable recorded
remove_memtable-Removed gen id [] m' w = λ e. absurd (cc)
remove_memtable-Removed gen id ((g, ids) ∷ rest) m' w = elim (Bool-cases (gen == g)) [
  | inl same ↦ rw same λ e.
      subst (Removed gen id ((g, ids) ∷ rest)) (some-injective _ _ e)
        (Removed-here gen id g ids rest w (ground arith))
  | inr other ↦ rw other λ e.
      let (r, at, e1) = bind-some (remove_memtable gen id rest) _ _ e in
      let back = remove_memtable-Removed gen id rest r w.3 at in
      subst (Removed gen id ((g, ids) ∷ rest)) (some-injective _ _ e1) record {
        counted = (w.0, w.1, back.after g w.2, back.counted);
        after = λ f k. (k.0, back.after f k.1);
        left = λ h i. ground (arith, back.left h i);
      }
]
