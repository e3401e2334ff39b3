-- ===== src/Prelude/Last.antt =====
-- The last elements of a list.
use Prim.Native.Nat.{ℕ, zero, suc, ◌-◌, ◌≤◌}
use mathlib.Core.Path.{◌≡◌, refl}
use mathlib.Core.Bool.{true}
use mathlib.Core.Logic.{inl, inr}
use mathlib.Core.List.{List, [], ◌∷◌, ◌++◌}
use native.Mathlib.Omega.{arith}
use neuro_pipeline.Prelude.Tests.{ltb, if◌then◌else◌, Bool-cases}
use neuro_pipeline.Prelude.Lists.{
  length, drop, length-append, length-drop, drop-append_le, drop-drop_one,
}

module _ {ℓ} {A : Type ℓ} where
  -- The last `n` elements.
  abbrev pub last : ℕ → List A → List A
  last n es = drop (length es - n) es

  pub drop_cut :
      (n k : ℕ) (es : List A)
      → k ≡ length es - 1 - n
      → (if ltb n (length (drop k es)) then drop 1 (drop k es) else drop k es) ≡ last n es
  drop_cut n k es h = elim (Bool-cases (ltb n (length es))) [
    | inl more ↦
        let cut : suc k ≡ length es - n = ground arith in
        let long : ltb n (length (drop k es)) ≡ true = rw (length-drop k es) (ground arith) in
        rw (long, drop-drop_one k es, cut) refl
    | inr fits ↦
        let k_zero : k ≡ 0 = ground arith in
        let none_cut : length es - n ≡ 0 = ground arith in rw (k_zero, none_cut, fits) refl
  ]

  -- One more element after the last `n`.
  pub last-snoc :
      (n : ℕ) (es : List A) (e : A)
      → (let xs = last n es ++ (e ∷ []) in if ltb n (length xs) then drop 1 xs else xs)
        ≡ last n (es ++ (e ∷ []))
  last-snoc n es e =
      let inside : length es - n ≤ length es = omega arith in
      rw (← drop-append_le (length es - n) es (e ∷ []) inside)
        (drop_cut n (length es - n) (es ++ (e ∷ [])) (omega (arith, length-append es (e ∷ []))))

  pub last_nil : (n : ℕ) → [] ≡ last n []
  last_nil n = nil (0 - n)
    where
      nil : (k : ℕ) → [] ≡ drop {A = A} k []
      nil zero = refl
      nil (suc k) = refl
