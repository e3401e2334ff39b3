-- ===== src/Prelude/Dict/Counts.antt =====
-- Counting the values of a dictionary that pass a test.
use neuro_pipeline.Prelude.Tests.{Bool-cases}
use neuro_pipeline.Prelude.Lists.{length, filter}
use neuro_pipeline.Prelude.Dict.{Dict, get, put, values}
use Prim.Native.Nat.{ℕ, ◌+◌}
use Prim.Native.String.{String}
use mathlib.Core.Path.{◌≡◌}
use mathlib.Core.Bool.{Bool, true, false}
use mathlib.Core.Logic.{inl, inr}
use mathlib.Core.Option.{Option, none, some}
use mathlib.Core.List.{[], ◌∷◌}
use native.Mathlib.Omega.{arith}
use text.Mathlib.Text.{◌==◌}

abbrev pub bit : Bool → ℕ
bit true = 1
bit false = 0

module _ {ℓ} {V : Type ℓ} where
  -- `len([v for v in d.values() if p(v)])`
  abbrev pub count_if : (V → Bool) → Dict V → ℕ
  count_if p d = length (filter p (values d))

  abbrev pub weight : (V → Bool) → Option V → ℕ
  weight p none = 0
  weight p (some v) = bit (p v)

  pub count_if-cons :
      (p : V → Bool) (k : String) (v : V) (d : Dict V)
      → count_if p ((k, v) ∷ d) ≡ bit (p v) + count_if p d
  count_if-cons p k v d = elim (Bool-cases (p v)) [
    | inl e ↦ rw e (omega arith)
    | inr e ↦ rw e (omega arith)
  ]

  -- What a write adds to the count, and what it takes away.
  pub count_if-put :
      (p : V → Bool) (k : String) (v : V) (d : Dict V)
      → count_if p (put k v d) + weight p (get k d) ≡ count_if p d + bit (p v)
  unfolding put get
  count_if-put p k v [] = omega (arith, count_if-cons p k v [])
  count_if-put p k v ((j, w) ∷ d) = elim (Bool-cases (j == k)) [
    | inl e ↦ rw e (omega (arith, count_if-cons p j v d, count_if-cons p j w d))
    | inr e ↦ rw e (
        omega (arith, count_if-cons p j w d, count_if-cons p j w (put k v d), count_if-put p k v d))
  ]
