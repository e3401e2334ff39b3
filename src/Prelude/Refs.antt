-- ===== src/Prelude/Refs.antt =====
-- Lists of numbers that stand for shared objects: membership, removal, and how often one occurs.
use Prim.Native.Nat.{ℕ, ◌+◌, ◌≤◌}
use mathlib.Core.Path.{◌≡◌, refl}
use mathlib.Core.Bool.{Bool, true, false}
use mathlib.Core.Logic.{inl, inr}
use mathlib.Core.List.{List, [], ◌∷◌, ◌++◌}
use native.Mathlib.Omega.{arith}
use neuro_pipeline.Prelude.Tests.{◌==◌, if◌then◌else◌, Bool-cases}
use neuro_pipeline.Prelude.Dict.Counts.{bit}

-- `l.remove(handler)`, where `ValueError` is ignored
unfoldable pub list_remove : ℕ → List ℕ → List ℕ
list_remove h [] = []
list_remove h (x ∷ xs) = if x == h then xs else x ∷ list_remove h xs

unfoldable pub mem : ℕ → List ℕ → Bool
mem h [] = false
mem h (x ∷ xs) = if x == h then true else mem h xs

-- How often a number stands in a list.
unfoldable pub count : ℕ → List ℕ → ℕ
count k [] = 0
count k (h ∷ hs) = bit (h == k) + count k hs

pub count-append : (k : ℕ) (hs js : List ℕ) → count k (hs ++ js) ≡ count k hs + count k js
unfolding count
count-append k [] js = omega arith
count-append k (h ∷ hs) js = omega (arith, count-append k hs js)

-- Removing a number that is there.
pub count-list_remove :
    (k h : ℕ) (hs : List ℕ)
    → 1 ≤ count h hs
    → count k (list_remove h hs) + bit (h == k) ≡ count k hs
unfolding count list_remove
count-list_remove k h [] there = absurd (omega arith)
count-list_remove k h (x ∷ xs) there = elim (Bool-cases (x == h)) [
  | inl same ↦ let e : x ≡ h = ground arith in rw (same, e) (omega arith)
  | inr other ↦
      let r = rw other at there in
      let later : 1 ≤ count h xs = omega arith in
      rw other (omega (arith, count-list_remove k h xs later))
]

pub one_added : (k h : ℕ) (hs : List ℕ) → count k (hs ++ (h ∷ [])) ≡ count k hs + bit (h == k)
unfolding count
one_added k h hs = omega (arith, count-append k hs (h ∷ []))

pub taken_away : (k h : ℕ) (hs : List ℕ) → count k (list_remove h (hs ++ (h ∷ []))) ≡ count k hs
taken_away k h hs =
    let there : 1 ≤ count h (hs ++ (h ∷ [])) = ground (arith, one_added h h hs) in
    omega (arith, count-list_remove k h (hs ++ (h ∷ [])) there, one_added k h hs)

pub mem-count : (h : ℕ) (hs : List ℕ) → mem h hs ≡ true → 1 ≤ count h hs
unfolding mem count
mem-count h [] m = ground arith
mem-count h (x ∷ xs) m = ground (arith, mem-count h xs)

pub not-mem-count : (h : ℕ) (hs : List ℕ) → mem h hs ≡ false → count h hs ≡ 0
unfolding mem count
not-mem-count h [] m = refl
not-mem-count h (x ∷ xs) m = ground (arith, not-mem-count h xs)
