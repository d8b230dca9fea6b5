-- ===== src/Base/Sums.antt =====
-- `xs.reduce((acc, x) => acc + x, 0n)` and its laws.
use Prim.Native.Nat.{ℕ, ◌+◌}
use mathlib.Core.Path.{◌≡◌}
use mathlib.Core.List.{List, [], ◌∷◌, ◌++◌}
use native.Mathlib.Omega.{arith}

reduce_from : ℕ → List ℕ → ℕ
reduce_from acc [] = acc
reduce_from acc (x ∷ xs) = reduce_from (acc + x) xs

-- `sum` of apps/batcher/src/solver.ts.
unfoldable pub sum : List ℕ → ℕ
unfolding reduce_from
sum xs = reduce_from 0 xs

reduce_from_shift : (acc : ℕ) (xs : List ℕ) → reduce_from acc xs ≡ acc + reduce_from 0 xs
unfolding reduce_from
reduce_from_shift acc [] = omega arith
reduce_from_shift acc (x ∷ xs) =
    omega (arith, reduce_from_shift (acc + x) xs, reduce_from_shift (0 + x) xs)

pub sum-nil : sum [] ≡ 0
unfolding sum
sum-nil = omega arith

pub sum-cons : (x : ℕ) (xs : List ℕ) → sum (x ∷ xs) ≡ x + sum xs
unfolding sum
sum-cons x xs = omega (arith, reduce_from_shift (0 + x) xs)

pub sum-append : (xs ys : List ℕ) → sum (xs ++ ys) ≡ sum xs + sum ys
sum-append [] ys = omega (arith, sum-nil)
sum-append (x ∷ xs) ys = omega (arith, sum-cons x xs, sum-cons x (xs ++ ys), sum-append xs ys)
