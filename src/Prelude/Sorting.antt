-- ===== src/Prelude/Sorting.antt =====
-- Python's order of texts and of lists of numbers, `min`, `max` and `sorted`.
use Prim.Native.Nat.{ℕ, suc}
use mathlib.Core.Path.{◌≡◌, refl}
use mathlib.Core.Bool.{Bool, true, false, ◌&&◌, ◌||◌}
use mathlib.Core.List.{List, [], ◌∷◌}
use native.Mathlib.Omega.{arith}
use k3s_minecraft.Prelude.Tests.{eqb, ltb, if◌then◌else◌}
use k3s_minecraft.Prelude.Lists.{length, all}

-- `a < b` of lists of numbers, texts too
unfoldable pub list_lt : List ℕ → List ℕ → Bool
list_lt [] [] = false
list_lt [] (y ∷ ys) = true
list_lt (x ∷ xs) [] = false
list_lt (x ∷ xs) (y ∷ ys) = ltb x y || (eqb x y && list_lt xs ys)

module _ {ℓ} {A : Type ℓ} (lt : A → A → Bool) where
  -- `min(x, *xs)`: the first of the least ones.
  unfoldable pub min_of : A → List A → A
  min_of x [] = x
  min_of x (y ∷ ys) = if lt y x then min_of y ys else min_of x ys

  -- `max(x, *xs)`: the first of the greatest ones.
  unfoldable pub max_of : A → List A → A
  max_of x [] = x
  max_of x (y ∷ ys) = if lt x y then max_of y ys else max_of x ys

  unfoldable pub insert_sorted : A → List A → List A
  insert_sorted x [] = x ∷ []
  insert_sorted x (y ∷ ys) =
      let rest = insert_sorted x ys in if lt y x then y ∷ rest else x ∷ y ∷ ys

  -- `sorted(xs)`, which keeps the order of equal elements
  unfoldable pub sort : List A → List A
  unfolding insert_sorted
  sort [] = []
  sort (x ∷ xs) = insert_sorted x (sort xs)

  pub length-insert_sorted : (x : A) (ys : List A) → length (insert_sorted x ys) ≡ suc (length ys)
  unfolding insert_sorted
  length-insert_sorted x [] = refl
  length-insert_sorted x (y ∷ ys) = ground (arith, length-insert_sorted x ys)

  pub length-sort : (xs : List A) → length (sort xs) ≡ length xs
  unfolding sort
  length-sort [] = refl
  length-sort (x ∷ xs) = omega (arith, length-insert_sorted x (sort xs), length-sort xs)

  -- A test that all elements pass, all pass in their new order.
  pub all-insert_sorted :
      (p : A → Bool) (x : A) (ys : List A) → all p (insert_sorted x ys) ≡ (p x && all p ys)
  unfolding insert_sorted all
  all-insert_sorted p x [] = refl
  all-insert_sorted p x (y ∷ ys) = ground (arith, all-insert_sorted p x ys)

  pub all-sort : (p : A → Bool) (xs : List A) → all p (sort xs) ≡ all p xs
  unfolding sort all
  all-sort p [] = refl
  all-sort p (x ∷ xs) = ground (arith, all-insert_sorted p x (sort xs), all-sort p xs)
