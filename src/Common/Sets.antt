-- ===== src/Common/Sets.antt =====
-- std::set of numbers, as the ascending list of its elements in the order of its iterator.
use Prim.Native.Nat.{ℕ, ◌<◌}
use mathlib.Core.Path.{◌≡◌, refl, ◌∙◌}
use mathlib.Core.Bool.{Bool, false, ◌||◌, ◌&&◌, not}
use mathlib.Core.List.{List, [], ◌∷◌, ◌++◌, append_assoc, append-nil}
use native.Mathlib.Omega.{arith}
use bl_nova_lsm.Common.Tests.{ltb, ◌==◌, if◌then◌else◌}
use bl_nova_lsm.Common.Lists.{All}
use bl_nova_lsm.Common.Ordered.{Ordered}

unfoldable pub insert : ℕ → List ℕ → List ℕ
insert x [] = x ∷ []
insert x (y ∷ ys) =
    let later = insert x ys in if ltb x y then x ∷ y ∷ ys else if x == y then y ∷ ys else y ∷ later

unfoldable pub erase : ℕ → List ℕ → List ℕ
erase x [] = []
erase x (y ∷ ys) = let later = erase x ys in if x == y then ys else y ∷ later

unfoldable pub contains : List ℕ → ℕ → Bool
contains [] x = false
contains (y ∷ ys) x = y == x || contains ys x

unfoldable pub insert_all : List ℕ → List ℕ → List ℕ
insert_all s [] = s
insert_all s (x ∷ xs) = insert_all (insert x s) xs

abbrev pub IsAscending : List ℕ → Type 0
IsAscending = Ordered ◌<◌

All-append : (P : ℕ → Type 0) (xs ys : List ℕ) → All P xs → All P ys → All P (xs ++ ys)
All-append P [] ys h k = k
All-append P (x ∷ xs) ys h k = (h.0, All-append P xs ys h.1 k)

insert_end : (x : ℕ) (s : List ℕ) → All (λ y. y < x) s → insert x s ≡ s ++ (x ∷ [])
unfolding insert
insert_end x [] h = refl
insert_end x (y ∷ ys) h = ground (arith, insert_end x ys h.1)

All-zip :
    (s xs : List ℕ) (x : ℕ)
    → All (λ z. All (λ y. y < z) s) xs
    → All (λ z. x < z) xs
    → All (λ z. All (λ y. y < z) (s ++ (x ∷ []))) xs
All-zip s [] x h k = tt
All-zip s (z ∷ zs) x h k =
    (All-append (λ y. y < z) s (x ∷ []) h.0 (k.0, tt), All-zip s zs x h.1 k.1)

insert_all_after :
    (s xs : List ℕ) → All (λ z. All (λ y. y < z) s) xs → IsAscending xs → insert_all s xs ≡ s ++ xs
unfolding insert_all
insert_all_after s [] h o = rw append-nil
insert_all_after s (x ∷ xs) h o =
    rw (insert_end x s h.0) (
      insert_all_after (s ++ (x ∷ [])) xs (All-zip s xs x h.1 o.0) o.1 ∙ append_assoc s (x ∷ []) xs)

All-empty : (xs : List ℕ) → All (λ z. All (λ y. y < z) []) xs
All-empty [] = tt
All-empty (x ∷ xs) = (tt, All-empty xs)

-- The elements of a set, inserted in order into an empty one, give the set.
pub insert_all_ascending : (xs : List ℕ) → IsAscending xs → insert_all [] xs ≡ xs
insert_all_ascending xs o = insert_all_after [] xs (All-empty xs) o

pub contains-insert : (x y : ℕ) (s : List ℕ) → contains (insert x s) y ≡ (x == y || contains s y)
unfolding contains insert
contains-insert x y [] = refl
contains-insert x y (z ∷ zs) = ground (arith, contains-insert x y zs)

insert-All : (n x : ℕ) (s : List ℕ) → n < x → All (λ y. n < y) s → All (λ y. n < y) (insert x s)
unfolding insert
insert-All n x [] h k = (h, tt)
insert-All n x (y ∷ ys) h k = ground (arith, insert-All n x ys)

All-mono : (m n : ℕ) (s : List ℕ) → m < n → All (λ y. n < y) s → All (λ y. m < y) s
All-mono m n [] h k = tt
All-mono m n (y ∷ ys) h k = (omega arith, All-mono m n ys h k.1)

pub insert-IsAscending : (x : ℕ) (s : List ℕ) → IsAscending s → IsAscending (insert x s)
unfolding insert
insert-IsAscending x [] o = (tt, tt)
insert-IsAscending x (y ∷ ys) o =
    ground (arith, All-mono x y ys, insert-All y x ys, insert-IsAscending x ys)

not_contained : (n : ℕ) (s : List ℕ) → All (λ y. n < y) s → contains s n ≡ false
unfolding contains
not_contained n [] h = refl
not_contained n (y ∷ ys) h = ground (arith, not_contained n ys h.1)

pub contains-erase :
    (x y : ℕ) (s : List ℕ) → IsAscending s → contains (erase x s) y ≡ (not (x == y) && contains s y)
unfolding contains erase
contains-erase x y [] o = ground arith
contains-erase x y (z ∷ zs) o = ground (arith, contains-erase x y zs o.1, not_contained z zs o.0)

erase-All : (n x : ℕ) (s : List ℕ) → All (λ y. n < y) s → All (λ y. n < y) (erase x s)
unfolding erase
erase-All n x [] h = tt
erase-All n x (y ∷ ys) h = ground (arith, erase-All n x ys h.1)

pub erase-IsAscending : (x : ℕ) (s : List ℕ) → IsAscending s → IsAscending (erase x s)
unfolding erase
erase-IsAscending x [] o = tt
erase-IsAscending x (y ∷ ys) o = ground (arith, erase-All y x ys o.0, erase-IsAscending x ys o.1)
