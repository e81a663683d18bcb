-- ===== src/Prelude/Perms.antt =====
-- Sums and tests over a list, and the order of its members.
use mathlib.Core.Path.{◌≡◌, refl}
use mathlib.Core.Bool.{Bool}
use mathlib.Core.List.{List, Permᴰ}
use native.Mathlib.Omega.{arith}
use Prim.Native.Nat.{ℕ}
use kemi.Prelude.Lists.{any, all}
use kemi.Prelude.Sums.{sum_by}

module _ {ℓ} {A : Type ℓ} where
  pub sum_by-perm : (f : A → ℕ) {xs ys : List A} → Permᴰ xs ys → sum_by f xs ≡ sum_by f ys
  sum_by-perm f Permᴰ.nil = refl
  sum_by-perm f (Permᴰ.cons e p) = rw e (omega (arith, sum_by-perm f p))
  sum_by-perm f (Permᴰ.swap e d) = rw (e, d) (omega arith)
  sum_by-perm f (Permᴰ.trans p q) = omega (arith, sum_by-perm f p, sum_by-perm f q)

  pub any-perm : (f : A → Bool) {xs ys : List A} → Permᴰ xs ys → any f xs ≡ any f ys
  any-perm f Permᴰ.nil = refl
  any-perm f (Permᴰ.cons e p) = rw (e, any-perm f p) refl
  any-perm f (Permᴰ.swap e d) = rw (e, d) (ground arith)
  any-perm f (Permᴰ.trans p q) = cc (any-perm f p, any-perm f q)

  pub all-perm : (f : A → Bool) {xs ys : List A} → Permᴰ xs ys → all f xs ≡ all f ys
  all-perm f Permᴰ.nil = refl
  all-perm f (Permᴰ.cons e p) = rw (e, all-perm f p) refl
  all-perm f (Permᴰ.swap e d) = rw (e, d) (ground arith)
  all-perm f (Permᴰ.trans p q) = cc (all-perm f p, all-perm f q)
