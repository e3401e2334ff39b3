-- ===== src/Inference/ConfigGuide/Recommendations.antt =====
-- The recommendations that vlm_config_guide.py finds in a text.
use neuro_pipeline.Prelude.{
  ◌<◌, ◌≡◌, refl, sym, ap, ◌∙◌, String, true, false, List, [], ◌∷◌, arith, str_eq, eq_iff, any, All,
  Bool-cases, inl, inr,
}
use neuro_pipeline.Prelude.Search.{strip, text_length}
use neuro_pipeline.Inference.ConfigGuide.Regions.{Regex}
use neuro_pipeline.Inference.ConfigGuide.{is_new, clean, extract_recommendations}

unfoldable pub Distinct : List String → Type 0
Distinct [] = Unit
Distinct (s ∷ ss) = (any (str_eq s) ss ≡ false) × Distinct ss

any_other :
    (s t : String) (seen : List String)
    → any (str_eq s) seen ≡ true
    → any (str_eq t) seen ≡ false
    → str_eq s t ≡ false
any_other s t seen h k = elim (Bool-cases (str_eq s t)) [
  | inl e ↦
      let same = ap (λ u. any (str_eq u) seen) ((eq_iff s t).0 e) in
      let clash : true ≡ false = sym h ∙ (same ∙ k) in cc
  | inr e ↦ e
]

any-cons_false :
    (t s : String) (ss : List String)
    → str_eq t s ≡ false
    → any (str_eq t) ss ≡ false
    → any (str_eq t) (s ∷ ss) ≡ false
any-cons_false t s ss h k = rw (h, k) refl

is_new_lem :
    (rec : String) (seen : List String)
    → is_new rec seen ≡ true
    → (any (str_eq rec) seen ≡ false) × (10 < text_length rec)
unfolding is_new
is_new_lem rec seen h = ground arith

-- What was seen is not kept again.
clean-seen :
    (t : String) (raws seen : List String)
    → any (str_eq t) seen ≡ true
    → any (str_eq t) (clean seen raws) ≡ false
unfolding clean
clean-seen t [] seen h = refl
clean-seen t (raw ∷ raws) seen h = elim (Bool-cases (is_new (strip raw) seen)) [
  | inl e ↦ rw e (
      any-cons_false t (strip raw) (clean (strip raw ∷ seen) raws)
        (any_other t (strip raw) seen h (is_new_lem (strip raw) seen e).0)
        (clean-seen t raws (strip raw ∷ seen) (later t (strip raw) seen h)))
  | inr e ↦ rw e (clean-seen t raws seen h)
]
  where
    later :
        (s r : String) (ss : List String)
        → any (str_eq s) ss ≡ true
        → any (str_eq s) (r ∷ ss) ≡ true
    later s r ss k = rw k (ground arith)

clean-Distinct :
    (raws seen : List String)
    → Distinct (clean seen raws) × All (λ r. 10 < text_length r) (clean seen raws)
unfolding clean Distinct
clean-Distinct [] seen = (tt, tt)
clean-Distinct (raw ∷ raws) seen = elim (Bool-cases (is_new (strip raw) seen)) [
  | inl e ↦
      let rest = clean-Distinct raws (strip raw ∷ seen) in
      rw e (
        (clean-seen (strip raw) raws (strip raw ∷ seen) (first (strip raw) seen), rest.0),
        ((is_new_lem (strip raw) seen e).1, rest.1),
      )
  | inr e ↦ rw e (clean-Distinct raws seen)
]
  where
    first : (s : String) (ss : List String) → any (str_eq s) (s ∷ ss) ≡ true
    first s ss = rw ((eq_iff s s).1 refl) refl

-- The recommendations of a result are pairwise different and longer than 10 characters, although the
-- same sentence is captured by several of the expressions.
pub extract_recommendations-Distinct :
    (re : Regex) (vlm_result : String)
    → Distinct (extract_recommendations re vlm_result)
      × All (λ r. 10 < text_length r) (extract_recommendations re vlm_result)
unfolding extract_recommendations
extract_recommendations-Distinct re vlm_result = clean-Distinct _ []
