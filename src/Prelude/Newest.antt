-- ===== src/Prelude/Newest.antt =====
-- `ORDER BY timestamp`, up and down. Rows with one timestamp stay in the order of insertion.
use neuro_pipeline.Prelude.Tests.{leb, Bool-cases}
use neuro_pipeline.Prelude.Lists.{length, take, drop, All, length-append, take_all, take-append_le}
use neuro_pipeline.Prelude.Last.{last, last_nil}
use neuro_pipeline.Prelude.Sort.{sorted, insert, IsOrder, All-sorted}
use Prim.Native.Nat.{ℕ, zero, suc, ◌-◌, ◌≤◌, ◌<◌}
use mathlib.Core.Path.{◌≡◌, refl, sym, ap, ◌∙◌}
use mathlib.Core.Bool.{Bool, false}
use mathlib.Core.Logic.{inl, inr}
use mathlib.Core.List.{List, [], ◌∷◌, ◌++◌, reverse, reverse-append}
use native.Mathlib.Omega.{arith}

module _ {A : Type 0} (timestamp : A → ℕ) where
  abbrev pub newer : A → A → Bool
  newer a b = leb (timestamp b) (timestamp a)

  abbrev pub older : A → A → Bool
  older a b = leb (timestamp a) (timestamp b)

  -- ORDER BY timestamp DESC
  abbrev pub newest_first : List A → List A
  newest_first = sorted newer

  -- ORDER BY timestamp
  abbrev pub oldest_first : List A → List A
  oldest_first = sorted older

  pub newer-IsOrder : IsOrder newer
  newer-IsOrder = record { total = λ a b h. ground arith; trans = λ a b c h k. ground arith }

  -- Each element is newer than the one before it.
  abbrev pub IsRising : List A → Type 0
  IsRising [] = Unit
  IsRising (a ∷ l) = All (λ b. timestamp a < timestamp b) l × IsRising l

  insert_oldest :
      (a : A) (bs : List A)
      → All (λ b. timestamp a < timestamp b) bs
      → insert newer a bs ≡ bs ++ (a ∷ [])
  unfolding insert
  insert_oldest a [] h = refl
  insert_oldest a (b ∷ bs) h =
      let after : newer a b ≡ false = ground arith in rw after (ap (◌∷◌ b) (insert_oldest a bs h.1))

  newest_first-cons :
      (a : A) (l : List A) → IsRising (a ∷ l) → newest_first (a ∷ l) ≡ newest_first l ++ (a ∷ [])
  unfolding sorted
  newest_first-cons a l h =
      insert_oldest a (newest_first l) (All-sorted newer (λ b. timestamp a < timestamp b) l h.0)

  length-newest_first : (l : List A) → IsRising l → length (newest_first l) ≡ length l
  unfolding sorted
  length-newest_first [] h = refl
  length-newest_first (a ∷ l) h =
      rw (newest_first-cons a l h)
        (omega (arith, length-append (newest_first l) (a ∷ []), length-newest_first l h.1))

  -- The newest `n` elements, put back into their order, are the last ones that were added.
  pub newest-last : (n : ℕ) (l : List A) → IsRising l → reverse (take n (newest_first l)) ≡ last n l
  unfolding sorted
  newest-last n [] h = nil n ∙ last_nil n
    where
      nil : (m : ℕ) → reverse (take {A = A} m []) ≡ []
      nil zero = refl
      nil (suc m) = refl
  newest-last n (a ∷ l) h =
      let len = length-newest_first l h.1 in
      let rest = newest-last n l h.1 in
      rw (newest_first-cons a l h) (elim (Bool-cases (leb n (length l))) [
        | inl short ↦
            let fits : n ≤ length (newest_first l) = ground arith in
            let cut : suc (length l) - n ≡ suc (length l - n) = ground arith in
            rw (take-append_le n (newest_first l) (a ∷ []) fits, cut) rest
        | inr long ↦
            let all_l : length (newest_first l) ≤ n = ground arith in
            let more : length (newest_first l ++ (a ∷ [])) ≤ n =
              ground (arith, length-append (newest_first l) (a ∷ [])) in
            let kept : length l - n ≡ 0 = ground arith in
            let kept_too : suc (length l) - n ≡ 0 = ground arith in
            let whole : reverse (newest_first l) ≡ l =
              ap reverse (sym (take_all (newest_first l) n all_l))
              ∙ (rest ∙ ap (λ k. drop k l) kept) in
            rw
              (
                take_all (newest_first l ++ (a ∷ [])) n more,
                reverse-append (newest_first l) (a ∷ []),
                whole,
                kept_too,
              )
              refl
      ])
