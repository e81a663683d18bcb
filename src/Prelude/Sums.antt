-- ===== src/Prelude/Sums.antt =====
-- Sums over lists.
use mathlib.Core.Path.{◌≡◌, refl}
use mathlib.Core.List.{List, [], ◌∷◌, ◌++◌}
use native.Mathlib.Omega.{arith}
use Prim.Native.Nat.{ℕ, ◌+◌}

module _ {ℓ} {A : Type ℓ} where
  abbrev pub sum_by : (A → ℕ) → List A → ℕ
  sum_by f [] = 0
  sum_by f (x ∷ xs) = f x + sum_by f xs

  pub sum_by-append : (f : A → ℕ) (xs ys : List A) → sum_by f (xs ++ ys) ≡ sum_by f xs + sum_by f ys
  sum_by-append f [] ys = omega arith
  sum_by-append f (x ∷ xs) ys = omega (arith, sum_by-append f xs ys)

  pub sum_by-add :
      (f g : A → ℕ) (xs : List A) → sum_by (λ x. f x + g x) xs ≡ sum_by f xs + sum_by g xs
  sum_by-add f g [] = omega arith
  sum_by-add f g (x ∷ xs) = omega (arith, sum_by-add f g xs)

  pub sum_by-zero : (f : A → ℕ) (xs : List A) → ((x : A) → f x ≡ 0) → sum_by f xs ≡ 0
  sum_by-zero f [] h = refl
  sum_by-zero f (x ∷ xs) h = omega (arith, h x, sum_by-zero f xs h)

  pub sum_by_ext : (f g : A → ℕ) (xs : List A) → ((x : A) → f x ≡ g x) → sum_by f xs ≡ sum_by g xs
  sum_by_ext f g [] h = refl
  sum_by_ext f g (x ∷ xs) h = omega (arith, h x, sum_by_ext f g xs h)

module _ {ℓ κ} {A : Type ℓ} {B : Type κ} where
  -- a double sum, taken in the other order
  pub sum_by_swap :
      (f : A → B → ℕ) (xs : List A) (ys : List B)
      → sum_by (λ x. sum_by (f x) ys) xs ≡ sum_by (λ y. sum_by (λ x. f x y) xs) ys
  sum_by_swap f [] ys = omega (arith, sum_by-zero (λ y. 0) ys (λ y. refl))
  sum_by_swap f (x ∷ xs) ys =
      omega (arith, sum_by_swap f xs ys, sum_by-add (f x) (λ y. sum_by (λ a. f a y) xs) ys)
