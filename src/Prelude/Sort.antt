-- ===== src/Prelude/Sort.antt =====
-- Python's `sorted`, which is stable: an insertion sort that puts an element before the first one
-- that it need not follow.
use neuro_pipeline.Prelude.Tests.{if◌then◌else◌, Bool-cases}
use neuro_pipeline.Prelude.Lists.{filter, any, All, All-filter}
use mathlib.Core.Bool.{Bool, true, false, ◌||◌}
use mathlib.Core.Path.{◌≡◌, refl, ◌∙◌}
use mathlib.Core.Logic.{inl, inr}
use mathlib.Core.List.{List, [], ◌∷◌, Perm}
use mathlib.Core.List.Perm
use native.Mathlib.Omega.{arith}

module _ {ℓ} {A : Type ℓ} (le : A → A → Bool) where
  unfoldable pub insert : A → List A → List A
  insert x [] = x ∷ []
  insert x (y ∷ ys) = if le x y then x ∷ y ∷ ys else y ∷ insert x ys

  unfoldable pub sorted : List A → List A
  unfolding insert
  sorted [] = []
  sorted (x ∷ xs) = insert x (sorted xs)

  abbrev pub IsSorted : List A → Type 0
  IsSorted [] = Unit
  IsSorted (x ∷ xs) = All (λ y. le x y ≡ true) xs × IsSorted xs

  insert-perm : (x : A) (l : List A) → Perm (insert x l) (x ∷ l)
  unfolding insert
  insert-perm x [] = Perm.refl (x ∷ [])
  insert-perm x (y ∷ l) = elim (Bool-cases (le x y)) [
    | inl e ↦ rw e (Perm.refl (x ∷ y ∷ l))
    | inr e ↦ rw e (Perm.trans (Perm.cons y (insert-perm x l)) (Perm.swap x y l))
  ]

  -- The result has the elements of the list, each as often.
  pub sorted-perm : (l : List A) → Perm (sorted l) l
  unfolding sorted
  sorted-perm [] = Perm.refl []
  sorted-perm (x ∷ l) = Perm.trans (insert-perm x (sorted l)) (Perm.cons x (sorted-perm l))

  insert-All : (P : A → Type 0) (x : A) (l : List A) → P x → All P l → All P (insert x l)
  unfolding insert
  insert-All P x [] p h = (p, tt)
  insert-All P x (y ∷ l) p h = elim (Bool-cases (le x y)) [
    | inl e ↦ rw e (p, h)
    | inr e ↦ rw e (h.0, insert-All P x l p h.1)
  ]

  pub All-sorted : (P : A → Type 0) (l : List A) → All P l → All P (sorted l)
  unfolding sorted
  All-sorted P [] h = tt
  All-sorted P (x ∷ l) h = insert-All P x (sorted l) h.0 (All-sorted P l h.1)

  -- A total preorder.
  pub record IsOrder : Type ℓ where
    pub total : (x y : A) → le x y ≡ false → le y x ≡ true
    pub trans : (x y z : A) → le x y ≡ true → le y z ≡ true → le x z ≡ true

  module _ (o : IsOrder) where
    All-trans :
        (x y : A) (l : List A)
        → le x y ≡ true
        → All (λ z. le y z ≡ true) l
        → All (λ z. le x z ≡ true) l
    All-trans x y [] h a = tt
    All-trans x y (z ∷ l) h a = (o.trans x y z h a.0, All-trans x y l h a.1)

    insert-IsSorted : (x : A) (l : List A) → IsSorted l → IsSorted (insert x l)
    unfolding insert
    insert-IsSorted x [] h = (tt, tt)
    insert-IsSorted x (y ∷ l) h = elim (Bool-cases (le x y)) [
      | inl e ↦ rw e ((e, All-trans x y l e h.0), h)
      | inr e ↦
          rw e (insert-All (λ z. le y z ≡ true) x l (o.total x y e) h.0, insert-IsSorted x l h.1)
    ]

    -- The result is in order.
    pub sorted-IsSorted : (l : List A) → IsSorted (sorted l)
    unfolding sorted
    sorted-IsSorted [] = tt
    sorted-IsSorted (x ∷ l) = insert-IsSorted x (sorted l) (sorted-IsSorted l)

    insert_first : (x : A) (l : List A) → All (λ z. le x z ≡ true) l → insert x l ≡ x ∷ l
    unfolding insert
    insert_first x [] h = refl
    insert_first x (y ∷ l) h = rw (h.0)

    filter-insert :
        (p : A → Bool) (x : A) (l : List A)
        → IsSorted l
        → filter p (insert x l) ≡ (if p x then insert x (filter p l) else filter p l)
    unfolding insert
    filter-insert p x [] h = refl
    filter-insert p x (y ∷ l) h = elim (Bool-cases (le x y)) [
      | inl e ↦ rw e (
          ground (
            arith,
            insert_first x (filter p (y ∷ l))
                (All-filter (λ z. le x z ≡ true) p (y ∷ l) (e, All-trans x y l e h.0)),
          ))
      | inr e ↦ rw e (ground (arith, filter-insert p x l h.1))
    ]

    -- To filter before or after sorting is the same.
    pub filter-sorted : (p : A → Bool) (l : List A) → filter p (sorted l) ≡ sorted (filter p l)
    unfolding sorted
    filter-sorted p [] = refl
    filter-sorted p (x ∷ l) =
        rw (filter-insert p x (sorted l) (sorted-IsSorted l), filter-sorted p l) (ground arith)

  any-insert : (p : A → Bool) (x : A) (l : List A) → any p (insert x l) ≡ (p x || any p l)
  unfolding insert
  any-insert p x [] = refl
  any-insert p x (y ∷ l) = ground (arith, any-insert p x l)

  -- A test that some element passes does not see the order.
  pub any-sorted : (p : A → Bool) (l : List A) → any p (sorted l) ≡ any p l
  unfolding sorted
  any-sorted p [] = refl
  any-sorted p (x ∷ l) = any-insert p x (sorted l) ∙ rw (any-sorted p l)
