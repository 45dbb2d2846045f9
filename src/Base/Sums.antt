-- ===== src/Base/Sums.antt =====
-- Sums of a weight over a list, which depend on its elements and not on their order.
use Prim.Native.Nat.{ℕ, ◌+◌}
use native.Mathlib.Nat.{ℕ_set}
use native.Mathlib.Omega.{arith}
use mathlib.Core.Path.{◌≡◌, refl, ap, ◌∙◌}
use mathlib.Core.List.{List, [], ◌∷◌, ◌++◌, Perm, Permᴰ}
use mathlib.Core.Logic.{∥∥₁_elim}
use dr_evt.Base.{◌==◌, if◌then◌else◌, length}

module _ {ℓ} {A : Type ℓ} (f : A → ℕ) where
  abbrev pub sum_of : List A → ℕ
  sum_of [] = 0
  sum_of (x ∷ xs) = f x + sum_of xs

  pub sum_of-append : (xs ys : List A) → sum_of (xs ++ ys) ≡ sum_of xs + sum_of ys
  sum_of-append [] ys = omega arith
  sum_of-append (x ∷ xs) ys = omega (arith, sum_of-append xs ys)

  sum_of-Permᴰ : {xs ys : List A} → Permᴰ xs ys → sum_of xs ≡ sum_of ys
  sum_of-Permᴰ Permᴰ.nil = refl
  sum_of-Permᴰ (Permᴰ.cons e p) = omega (arith, ap f e, sum_of-Permᴰ p)
  sum_of-Permᴰ (Permᴰ.swap e e') = omega (arith, ap f e, ap f e')
  sum_of-Permᴰ (Permᴰ.trans p q) = sum_of-Permᴰ p ∙ sum_of-Permᴰ q

  pub sum_of-Perm : {xs ys : List A} → Perm xs ys → sum_of xs ≡ sum_of ys
  sum_of-Perm {xs} {ys} p = ∥∥₁_elim p (ℕ_set (sum_of xs) (sum_of ys)) sum_of-Permᴰ

-- How often a number is in a list.
abbrev pub is : ℕ → ℕ → ℕ
is j k = if k == j then 1 else 0

abbrev pub occurs : ℕ → List ℕ → ℕ
occurs j = sum_of (is j)

pub sum_of-one {ℓ} : {A : Type ℓ} (xs : List A) → sum_of (λ x. 1) xs ≡ length xs
sum_of-one [] = refl
sum_of-one (x ∷ xs) = omega (arith, sum_of-one xs)
