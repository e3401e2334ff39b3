-- ===== src/ModelManagement/AbTest/Evaluation.antt =====
-- What ab_test_manager.py evaluates.
use neuro_pipeline.Prelude.{
  ℕ, ◌+◌, ◌≡◌, ◌≢◌, refl, sym, ap, ◌∙◌, String, Bool, true, false, List, [], ◌∷◌, some, str_eq,
  eq_iff, Bool-cases, Option-cases, inl, inr, arith, length, count_true, if◌then◌else◌,
}
use neuro_pipeline.Prelude.Dict.{get, put, get-put}
use neuro_pipeline.ModelManagement.AbTest.{
  VariantMetrics, AbTestManager, init, new_metrics, record_inference, record_detection, change,
  count_inference, count_detection, evaluate, result_of, enough,
}

-- A call of `record_inference` or `record_detection`.
pub data Entry : Type 0 where
  inference : String → ℕ → Entry
  detected : String → Bool → Entry

pub log_entry : Entry → AbTestManager → AbTestManager
log_entry (inference variant latency) m = record_inference variant latency m
log_entry (detected variant correct) m = record_detection variant correct m

pub run : List Entry → AbTestManager → AbTestManager
unfolding log_entry
run [] m = m
run (e ∷ es) m = run es (log_entry e m)

-- The latencies that were recorded for a variant, and the verdicts.
unfoldable pub latencies : String → List Entry → List ℕ
latencies name [] = []
latencies name (inference variant latency ∷ es) =
    let rest = latencies name es in if str_eq variant name then latency ∷ rest else rest
latencies name (detected variant correct ∷ es) = latencies name es

unfoldable pub verdicts : String → List Entry → List Bool
verdicts name [] = []
verdicts name (inference variant latency ∷ es) = verdicts name es
verdicts name (detected variant correct ∷ es) =
    let rest = verdicts name es in if str_eq variant name then correct ∷ rest else rest

unfoldable pub sum : List ℕ → ℕ
sum [] = 0
sum (n ∷ ns) = n + sum ns

-- The metrics of a variant from what was recorded for it.
pub tallied : String → List Entry → VariantMetrics
tallied name es = record {
  variant_name = name;
  total_inferences = length (latencies name es);
  total_latency = sum (latencies name es);
  correct_detections = count_true (verdicts name es);
  total_detections = length (verdicts name es);
}

abbrev with_counts : String → ℕ → ℕ → ℕ → ℕ → VariantMetrics
with_counts name a b c d = record {
  variant_name = name;
  total_inferences = a;
  total_latency = b;
  correct_detections = c;
  total_detections = d;
}

-- The metrics after more entries.
grown : String → List Entry → VariantMetrics → VariantMetrics
grown name es v =
    with_counts v.variant_name (v.total_inferences + length (latencies name es))
      (v.total_latency + sum (latencies name es))
      (v.correct_detections + count_true (verdicts name es))
      (v.total_detections + length (verdicts name es))

differ : (a b : String) → a ≢ b → str_eq a b ≡ false
differ a b h = elim (Bool-cases (str_eq a b)) [ inl e ↦ absurd (h ((eq_iff a b).0 e)) | inr e ↦ e ]

change-metrics :
    (variant name : String) (f : VariantMetrics → VariantMetrics) (v : VariantMetrics)
    (m : AbTestManager)
    → get name m.metrics ≡ some v
    → get name (change variant f m).metrics ≡ some (if str_eq variant name then f v else v)
unfolding change
change-metrics variant name f v m h = elim (Bool-cases (str_eq variant name)) [
  | inl e ↦
      let same : variant ≡ name = (eq_iff variant name).0 e in
      let found : get variant m.metrics ≡ some v = rw same h in
      let there : get name (put variant (f v) m.metrics) ≡ some (f v) =
        rw (get-put variant name (f v) m.metrics, e) refl in
      rw (found, change, e) there
  | inr e ↦ elim (Option-cases (get variant m.metrics)) [
    | inl absent ↦ rw (absent, change, e) h
    | inr (w, found) ↦
        let there : get name (put variant (f w) m.metrics) ≡ some v =
          rw (get-put variant name (f w) m.metrics, e) h in
        rw (found, change, e) there
  ]
]

counts :
    (name : String) (a b c d a' b' c' d' : ℕ)
    → a ≡ a'
    → b ≡ b'
    → c ≡ c'
    → d ≡ d'
    → with_counts name a b c d ≡ with_counts name a' b' c' d'
counts name a b c d a' b' c' d' p q r s = rw (p, q, r, s) refl

grown-inference :
    (name : String) (n : ℕ) (b : Bool) (es : List Entry) (v : VariantMetrics)
    → grown name es (if b then count_inference n v else v)
      ≡ with_counts v.variant_name
          (v.total_inferences + length (if b then n ∷ latencies name es else latencies name es))
          (v.total_latency + sum (if b then n ∷ latencies name es else latencies name es))
          (v.correct_detections + count_true (verdicts name es))
          (v.total_detections + length (verdicts name es))
unfolding grown count_inference sum
grown-inference name n true es v =
    counts v.variant_name _ _ _ _ _ _ _ _ (omega arith) (omega arith) refl refl
grown-inference name n false es v = refl

grown-detected :
    (name : String) (c b : Bool) (es : List Entry) (v : VariantMetrics)
    → grown name es (if b then count_detection c v else v)
      ≡ with_counts v.variant_name
          (v.total_inferences + length (latencies name es))
          (v.total_latency + sum (latencies name es))
          (v.correct_detections + count_true (if b then c ∷ verdicts name es else verdicts name es))
          (v.total_detections + length (if b then c ∷ verdicts name es else verdicts name es))
unfolding grown count_detection
grown-detected name true true es v =
    counts v.variant_name _ _ _ _ _ _ _ _ refl refl (omega arith) (omega arith)
grown-detected name false true es v =
    counts v.variant_name _ _ _ _ _ _ _ _ refl refl refl (omega arith)
grown-detected name c false es v = refl

run-metrics :
    (es : List Entry) (name : String) (v : VariantMetrics) (m : AbTestManager)
    → get name m.metrics ≡ some v
    → get name (run es m).metrics ≡ some (grown name es v)
unfolding run log_entry record_inference record_detection latencies verdicts grown sum
run-metrics [] name v m h =
    h
    ∙ ap some (
        counts v.variant_name _ _ _ _ _ _ _ _ (omega arith) (omega arith) (omega arith)
          (omega arith))
run-metrics (inference variant n ∷ es) name v m h =
    run-metrics es name _ (record_inference variant n m)
      (change-metrics variant name (count_inference n) v m h)
    ∙ ap some (grown-inference name n (str_eq variant name) es v)
run-metrics (detected variant c ∷ es) name v m h =
    run-metrics es name _ (record_detection variant c m)
      (change-metrics variant name (count_detection c) v m h)
    ∙ ap some (grown-detected name c (str_eq variant name) es v)

change-fixed :
    (variant : String) (f : VariantMetrics → VariantMetrics) (m : AbTestManager)
    → change variant f m ≡ record m { metrics = (change variant f m).metrics }
unfolding change
change-fixed variant f m = elim (Option-cases (get variant m.metrics)) [
  | inl e ↦ rw (e, change) refl
  | inr (v, e) ↦ rw (e, change) refl
]

run-fixed :
    (es : List Entry) (m : AbTestManager) → run es m ≡ record m { metrics = (run es m).metrics }
unfolding run log_entry record_inference record_detection
run-fixed [] m = refl
run-fixed (inference variant n ∷ es) m =
    let m1 = record_inference variant n m in
    let rebase : AbTestManager → AbTestManager = λ x. record x { metrics = (run es m1).metrics } in
    run-fixed es m1 ∙ ap rebase (change-fixed variant (count_inference n) m)
run-fixed (detected variant c ∷ es) m =
    let m1 = record_detection variant c m in
    let rebase : AbTestManager → AbTestManager = λ x. record x { metrics = (run es m1).metrics } in
    run-fixed es m1 ∙ ap rebase (change-fixed variant (count_detection c) m)

pub evaluate-found :
    (m : AbTestManager) (c t : VariantMetrics)
    → get m.control_variant m.metrics ≡ some c
    → get m.treatment_variant m.metrics ≡ some t
    → evaluate m ≡ some (result_of m c t)
unfolding evaluate
evaluate-found m c t e f = rw (e, f, evaluate) refl

grown-new : (name : String) (es : List Entry) → grown name es (new_metrics name) ≡ tallied name es
unfolding grown tallied new_metrics
grown-new name es =
    counts name _ _ _ _ _ _ _ _ (omega arith) (omega arith) (omega arith) (omega arith)

init-metrics :
    (c t : String) (whole split min_samples : ℕ) (metric : String)
    → c ≢ t
    → let m = init c t whole split min_samples metric in
      (get c m.metrics ≡ some (new_metrics c)) × (get t m.metrics ≡ some (new_metrics t))
unfolding init
init-metrics c t whole split min_samples metric distinct =
    let first = put c (new_metrics c) [] in
    let apart : str_eq t c ≡ false = differ t c (λ e. distinct (sym e)) in
    (
      rw
          (
            get-put t c (new_metrics t) first,
            apart,
            get-put c c (new_metrics c) [],
            (eq_iff c c).1 refl,
          )
          refl,
      rw (get-put t t (new_metrics t) first, (eq_iff t t).1 refl) refl,
    )

-- Of a new test with two different variants, `evaluate` never raises, whatever was recorded. It judges
-- for each variant the number and the sum of the latencies that were recorded for it, and the number
-- of its verdicts and of the correct ones; records for other variants do not count.
pub run-evaluate :
    (c t : String) (whole split min_samples : ℕ) (metric : String) (es : List Entry)
    → c ≢ t
    → let m = init c t whole split min_samples metric in
      evaluate (run es m) ≡ some (result_of m (tallied c es) (tallied t es))
unfolding result_of enough init
run-evaluate c t whole split min_samples metric es distinct =
    let m = init c t whole split min_samples metric in
    let fixed = run-fixed es m in
    let known = init-metrics c t whole split min_samples metric distinct in
    let now = (run es m).metrics in
    let of_c : get c now ≡ some (tallied c es) =
      run-metrics es c (new_metrics c) m known.0 ∙ ap some (grown-new c es) in
    let of_t : get t now ≡ some (tallied t es) =
      run-metrics es t (new_metrics t) m known.1 ∙ ap some (grown-new t es) in
    ap evaluate fixed
    ∙ evaluate-found (record m { metrics = now }) (tallied c es) (tallied t es) of_c of_t
