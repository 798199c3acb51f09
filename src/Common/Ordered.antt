-- ===== src/Common/Ordered.antt =====
-- Lists in which each element stands in a relation to all that follow it.
use Prim.Native.Nat.{ℕ, zero, suc, ◌<◌}
use mathlib.Core.Path.{◌≡◌, refl, subst}
use mathlib.Core.List.{List, [], ◌∷◌}
use mathlib.Core.Option.{some, some-injective}
use native.Mathlib.Omega.{arith}
use bl_nova_lsm.Common.Lists.{length, get_elem?, All}

module _ {ℓ κ} {A : Type ℓ} where
  abbrev pub Ordered : (A → A → Type κ) → List A → Type κ
  Ordered R [] = Unit {κ}
  Ordered R (x ∷ xs) = All (R x) xs × Ordered R xs

  pub All-get :
      (P : A → Type κ) (xs : List A) (i : ℕ) (x : A) → All P xs → get_elem? xs i ≡ some x → P x
  All-get P [] i x h e = cc
  All-get P (y ∷ ys) zero x h e = subst P (some-injective y x e) h.0
  All-get P (y ∷ ys) (suc i) x h e = All-get P ys i x h.1 e

  pub Ordered-get :
      (R : A → A → Type κ) (xs : List A) (i j : ℕ) (x y : A)
      → Ordered R xs
      → i < j
      → get_elem? xs i ≡ some x
      → get_elem? xs j ≡ some y
      → R x y
  Ordered-get R [] i j x y o l e f = cc
  Ordered-get R (z ∷ zs) zero zero x y o l e f = absurd (omega arith)
  Ordered-get R (z ∷ zs) zero (suc j) x y o l e f =
      subst (λ t. R t y) (some-injective z x e) (All-get (R z) zs j y o.0 f)
  Ordered-get R (z ∷ zs) (suc i) zero x y o l e f = absurd (omega arith)
  Ordered-get R (z ∷ zs) (suc i) (suc j) x y o l e f =
      Ordered-get R zs i j x y o.1 (omega arith) e f

module _ {ℓ} {A : Type ℓ} where
  pub get_within : (xs : List A) (i : ℕ) → i < length xs → (x : A) × (get_elem? xs i ≡ some x)
  get_within [] i h = absurd (omega arith)
  get_within (x ∷ xs) zero h = (x, refl)
  get_within (x ∷ xs) (suc i) h = get_within xs i (omega arith)

  pub within_of_get : (xs : List A) (i : ℕ) (x : A) → get_elem? xs i ≡ some x → i < length xs
  within_of_get [] i x e = cc
  within_of_get (y ∷ ys) zero x e = omega arith
  within_of_get (y ∷ ys) (suc i) x e = omega (arith, within_of_get ys i x e)
