-- ===== src/Prelude/Fraction.antt =====
-- Quotients that the program compares, kept as numerator and denominator.
use Prim.Native.Nat.{ℕ, ◌*◌}
use mathlib.Core.Bool.{Bool}
use neuro_pipeline.Prelude.Tests.{ltb}

pub record Fraction : Type 0 where
  pub num : ℕ
  pub den : ℕ

-- `q < n`, where the denominator is positive
abbrev pub below : Fraction → ℕ → Bool
below q n = ltb q.num (n * q.den)
