-- ===== src/Prelude/Dict.antt =====
-- Python's `dict` with text keys, in the order of insertion: writing to a present key keeps its
-- place, a new key goes to the end.
pub mod Counts
use neuro_pipeline.Prelude.Tests.{if◌then◌else◌, Bool-cases}
use neuro_pipeline.Prelude.Lists.{length, All}
use Prim.Native.Nat.{◌+◌}
use Prim.Native.String.{String}
use mathlib.Core.Path.{◌≡◌, refl, sym, subst, subst₂}
use mathlib.Core.Logic.{inl, inr}
use mathlib.Core.Bool.{Bool, true, false, ◌||◌}
use mathlib.Core.Option.{Option, none, some}
use mathlib.Core.List.{List, [], ◌∷◌, ◌++◌, map}
use native.Mathlib.Omega.{arith}
use text.Mathlib.Text.{◌==◌}
use text.Mathlib.TextEquality.{eq_iff}

abbrev pub Dict {ℓ} : Type ℓ → Type ℓ
Dict V = List (String × V)

module _ {ℓ} {V : Type ℓ} where
  -- d.get(k)
  unfoldable pub get : String → Dict V → Option V
  get k [] = none
  get k ((j, v) ∷ d) = if j == k then some v else get k d

  -- k in d
  unfoldable pub contains : String → Dict V → Bool
  contains k [] = false
  contains k ((j, v) ∷ d) = j == k || contains k d

  -- d[k] = v
  unfoldable pub put : String → V → Dict V → Dict V
  put k v [] = (k, v) ∷ []
  put k v ((j, w) ∷ d) = if j == k then (j, v) ∷ d else (j, w) ∷ put k v d

  -- d.pop(k, None); del d[k] for a present key
  unfoldable pub remove : String → Dict V → Dict V
  remove k [] = []
  remove k ((j, w) ∷ d) = if j == k then d else (j, w) ∷ remove k d

  abbrev pub keys : Dict V → List String
  keys = map (λ e. e.0)

  abbrev pub values : Dict V → List V
  values = map (λ e. e.1)

  -- No key twice.
  abbrev pub IsDict : Dict V → Type 0
  IsDict [] = Unit
  IsDict ((k, v) ∷ d) = (contains k d ≡ false) × IsDict d

  pub contains-get : (k : String) (d : Dict V) → contains k d ≡ true → (v : V) × (get k d ≡ some v)
  unfolding contains get
  contains-get k [] h = cc
  contains-get k ((j, w) ∷ d) h = elim (Bool-cases (j == k)) [
    | inl e ↦ (w, rw e)
    | inr e ↦ rw e (contains-get k d (ground arith))
  ]

  pub get_of_not-contains : (k : String) (d : Dict V) → contains k d ≡ false → get k d ≡ none
  unfolding contains get
  get_of_not-contains k [] h = refl
  get_of_not-contains k ((j, w) ∷ d) h = ground (arith, get_of_not-contains k d)

  pub get-put :
      (k j : String) (v : V) (d : Dict V) → get j (put k v d) ≡ (if k == j then some v else get j d)
  unfolding get put
  get-put k j v [] = refl
  get-put k j v ((i, w) ∷ d) = ground (arith, eq_iff k j, eq_iff i k, eq_iff i j, get-put k j v d)

  pub get-remove :
      (k j : String) (d : Dict V)
      → IsDict d
      → get j (remove k d) ≡ (if k == j then none else get j d)
  unfolding get remove
  get-remove k j [] h = ground arith
  get-remove k j ((i, w) ∷ d) h =
      ground (
        arith,
        eq_iff k j,
        eq_iff i k,
        eq_iff i j,
        get-remove k j d h.1,
        get_of_not-contains i d h.0,
      )

  pub contains-put :
      (k j : String) (v : V) (d : Dict V) → contains j (put k v d) ≡ (k == j || contains j d)
  unfolding contains put
  contains-put k j v [] = refl
  contains-put k j v ((i, w) ∷ d) =
      ground (arith, eq_iff k j, eq_iff i k, eq_iff i j, contains-put k j v d)

  pub contains-remove_absent :
      (k j : String) (d : Dict V) → contains j d ≡ false → contains j (remove k d) ≡ false
  unfolding contains remove
  contains-remove_absent k j [] h = refl
  contains-remove_absent k j ((i, w) ∷ d) h = ground (arith, contains-remove_absent k j d)

  pub remove_absent : (k : String) (d : Dict V) → contains k d ≡ false → remove k d ≡ d
  unfolding contains remove
  remove_absent k [] h = refl
  remove_absent k ((i, w) ∷ d) h = ground (arith, remove_absent k d)

  pub put-IsDict : (k : String) (v : V) (d : Dict V) → IsDict d → IsDict (put k v d)
  unfolding put contains
  put-IsDict k v [] h = (refl, tt)
  put-IsDict k v ((i, w) ∷ d) h = elim (Bool-cases (i == k)) [
    | inl e ↦ rw e (h.0, h.1)
    | inr e ↦
        rw e (ground (arith, contains-put k i v d, eq_iff i k, eq_iff k i), put-IsDict k v d h.1)
  ]

  pub remove-IsDict : (k : String) (d : Dict V) → IsDict d → IsDict (remove k d)
  unfolding remove contains
  remove-IsDict k [] h = tt
  remove-IsDict k ((i, w) ∷ d) h = elim (Bool-cases (i == k)) [
    | inl e ↦ rw e h.1
    | inr e ↦ rw e (contains-remove_absent k i d h.0, remove-IsDict k d h.1)
  ]

  pub length-put :
      (k : String) (v : V) (d : Dict V)
      → length (put k v d) ≡ (if contains k d then length d else length d + 1)
  unfolding put contains
  length-put k v [] = refl
  length-put k v ((i, w) ∷ d) = ground (arith, length-put k v d)

  pub length-remove :
      (k : String) (d : Dict V)
      → length d ≡ (if contains k d then length (remove k d) + 1 else length (remove k d))
  unfolding remove contains
  length-remove k [] = refl
  length-remove k ((i, w) ∷ d) = ground (arith, length-remove k d)

  contains-append :
      (k : String) (d e : Dict V) → contains k (d ++ e) ≡ (contains k d || contains k e)
  unfolding contains
  contains-append k [] e = refl
  contains-append k ((j, w) ∷ d) e = ground (arith, contains-append k d e)

  -- A key in the middle of a dictionary is not before it.
  pub absent_before :
      (k : String) (v : V) (d e : Dict V) → IsDict (d ++ ((k, v) ∷ e)) → contains k d ≡ false
  unfolding contains
  absent_before k v [] e h = refl
  absent_before k v ((j, w) ∷ d) e h =
      ground
        (arith, absent_before k v d e h.1, contains-append j d ((k, v) ∷ e), eq_iff j k, eq_iff k j)

  pub remove-middle :
      (k : String) (v : V) (d e : Dict V)
      → contains k d ≡ false
      → remove k (d ++ ((k, v) ∷ e)) ≡ d ++ e
  unfolding remove contains
  remove-middle k v [] e h = ground (arith, eq_iff k k)
  remove-middle k v ((j, w) ∷ d) e h = ground (arith, remove-middle k v d e)

  pub put-middle :
      (k : String) (v v' : V) (d e : Dict V)
      → contains k d ≡ false
      → put k v' (d ++ ((k, v) ∷ e)) ≡ d ++ ((k, v') ∷ e)
  unfolding put contains
  put-middle k v v' [] e h = ground (arith, eq_iff k k)
  put-middle k v v' ((j, w) ∷ d) e h = ground (arith, put-middle k v v' d e)

  pub put-All :
      (P : String × V → Type 0) (k : String) (v : V) (d : Dict V)
      → P (k, v)
      → All P d
      → All P (put k v d)
  unfolding put
  put-All P k v [] p h = (p, tt)
  put-All P k v ((j, w) ∷ d) p h = elim (Bool-cases (j == k)) [
    | inl e ↦ rw e (subst (λ i. P (i, v)) (sym ((eq_iff j k).0 e)) p, h.1)
    | inr e ↦ rw e (h.0, put-All P k v d p h.1)
  ]

  pub remove-All :
      (P : String × V → Type 0) (k : String) (d : Dict V) → All P d → All P (remove k d)
  unfolding remove
  remove-All P k [] h = tt
  remove-All P k ((j, w) ∷ d) h = elim (Bool-cases (j == k)) [
    | inl e ↦ rw e h.1
    | inr e ↦ rw e (h.0, remove-All P k d h.1)
  ]

  pub All-get :
      (P : String × V → Type 0) (k : String) (d : Dict V) {v : V}
      → All P d
      → get k d ≡ some v
      → P (k, v)
  unfolding get
  All-get P k [] h e = cc
  All-get P k ((j, w) ∷ d) {v} h e = elim (Bool-cases (j == k)) [
    | inl t ↦ subst₂ (λ i x. P (i, x)) ((eq_iff j k).0 t) (ground arith) h.0
    | inr t ↦ All-get P k d h.1 (ground arith)
  ]

  pub contains_of_get : (k : String) (d : Dict V) {v : V} → get k d ≡ some v → contains k d ≡ true
  unfolding get contains
  contains_of_get k [] e = cc
  contains_of_get k ((j, w) ∷ d) {v} e = ground (arith, contains_of_get k d {v = v})

  pub not-contains_of_get : (k : String) (d : Dict V) → get k d ≡ none → contains k d ≡ false
  unfolding get contains
  not-contains_of_get k [] e = refl
  not-contains_of_get k ((j, w) ∷ d) e = ground (arith, not-contains_of_get k d)

  pub remove-put_absent :
      (k : String) (v : V) (d : Dict V) → contains k d ≡ false → remove k (put k v d) ≡ d
  unfolding contains put remove
  remove-put_absent k v [] h = ground (arith, eq_iff k k)
  remove-put_absent k v ((j, w) ∷ d) h = ground (arith, remove-put_absent k v d)
