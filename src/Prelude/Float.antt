-- ===== src/Prelude/Float.antt =====
-- Floating point numbers, as far as the code reckons with them: the operations are Python's, the tests
-- are `<=`, `<` and `==`, and `of_nat` is a number that an integer literal or a count stands for.
use neuro_pipeline.Prelude.Tests.{if◌then◌else◌, leb, ltb}
use mathlib.Core.Bool.{Bool, true, false, ◌&&◌}
use mathlib.Core.Path.{◌≡◌}
use mathlib.Core.List.{List, [], ◌∷◌}
use Prim.Native.Nat.{ℕ, ◌+◌, ◌-◌, ◌*◌, ◌/◌}
use native.Mathlib.Omega.{arith}

pub record Float (W : Type 0) : Type 0 where
  pub of_nat : ℕ → W
  pub inf : W
  pub add : W → W → W
  pub sub : W → W → W
  pub mul : W → W → W
  pub div : W → W → W
  pub sqrt : W → W
  pub le : W → W → Bool
  pub lt : W → W → Bool
  pub is_eq : W → W → Bool

-- What the theorems need of the order, which holds with NaN, where each test is false.
pub record IsOrdered (W : Type 0) ⦃f : Float W⦄ : Type 0 where
  pub lt_irrefl : (x : W) → f.lt x x ≡ false
  pub lt_trans : (x y z : W) → f.lt x y ≡ true → f.lt y z ≡ true → f.lt x z ≡ true

module _ {W : Type 0} ⦃f : Float W⦄ where
  -- `sum(xs)`, from the left and from 0.
  pub sum_from : W → List W → W
  sum_from s [] = s
  sum_from s (x ∷ xs) = sum_from (f.add s x) xs

  pub sum : List W → W
  unfolding sum_from
  sum = sum_from (f.of_nat 0)

  -- `abs(x)`
  pub abs : W → W
  abs x = if f.lt x (f.of_nat 0) then f.sub (f.of_nat 0) x else x

-- An instance for runs, in which the numbers are natural and no root is taken.
instance abbrev pub naturals : Float ℕ
naturals = record {
  of_nat = λ n. n;
  inf = 1_000_000;
  add = λ a b. a + b;
  sub = λ a b. a - b;
  mul = λ a b. a * b;
  div = λ a b. a / b;
  sqrt = λ a. a;
  le = leb;
  lt = ltb;
  is_eq = λ a b. leb a b && leb b a;
}

pub naturals-IsOrdered : IsOrdered ℕ
naturals-IsOrdered = record {
  lt_irrefl = λ x. ground arith;
  lt_trans = λ x y z h g. ground (arith, h, g);
}
