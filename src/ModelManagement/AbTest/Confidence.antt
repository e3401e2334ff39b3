-- ===== src/ModelManagement/AbTest/Confidence.antt =====
-- The confidence that ab_test_manager.py gives with a result.
use neuro_pipeline.Prelude.{
  ℕ, zero, suc, ◌*◌, ◌≤◌, ◌<◌, max, ◌≡◌, refl, Bool, true, false, Option, none, some, str_eq,
  Bool-cases, Option-cases, inl, inr, arith,
}
use Prim.Native.Nat.mul
use mathlib.Core.Path.{subst}
use neuro_pipeline.Prelude.Dict.{get}
use neuro_pipeline.ModelManagement.AbTest.{
  VariantMetrics, AbTestManager, AbTestResult, Fraction, evaluate, result_of, confidence_of,
  ten_times, difference, relative_difference, enough, accuracy, avg_latency,
}
use neuro_pipeline.ModelManagement.AbTest.Evaluation.{evaluate-found}

mul_pos : (a b : ℕ) → 0 < a → 0 < b → 0 < a * b
mul_pos zero b h k = absurd (omega arith)
mul_pos (suc a) b h k = omega (arith, mul.suc a b)

-- A confidence is between 0 and 1, and 0 if there are too few samples.
pub record IsConfidence (sufficient : Bool) (f : Fraction) : Type 0 where
  pub at_most_one : f.numerator ≤ f.denominator
  pub proper : 0 < f.denominator
  pub unsure : sufficient ≡ false → f.numerator ≡ 0

confidence_of-IsConfidence :
    (b : Bool) (d : Fraction) → 0 < d.denominator → IsConfidence b (confidence_of b d)
unfolding confidence_of ten_times
confidence_of-IsConfidence true d h = record {
  at_most_one = omega arith;
  proper = h;
  unsure = λ e. absurd (ground arith);
}
confidence_of-IsConfidence false d h = record {
  at_most_one = omega arith;
  proper = omega arith;
  unsure = λ e. refl;
}

result_of-IsConfidence :
    (m : AbTestManager) (c t : VariantMetrics)
    → let r = result_of m c t in IsConfidence r.sufficient_samples r.confidence
unfolding result_of relative_difference difference accuracy avg_latency
result_of-IsConfidence m c t =
    let inferences =
      mul_pos (max c.total_inferences 1) (max t.total_inferences 1) (omega arith) (omega arith) in
    let detections =
      mul_pos (max c.total_detections 1) (max t.total_detections 1) (omega arith) (omega arith) in
    elim (Bool-cases (str_eq m.metric "latency")) [
      | inl e ↦ rw e (
          confidence_of-IsConfidence (enough m c t)
            (relative_difference (avg_latency c) (avg_latency t)) (omega arith))
      | inr e ↦ rw e (
          confidence_of-IsConfidence (enough m c t) (difference (accuracy c) (accuracy t))
            (omega arith))
    ]

Judged : Option AbTestResult → Type 0
Judged none = Unit
Judged (some r) = IsConfidence r.sufficient_samples r.confidence

evaluate-Judged : (m : AbTestManager) → Judged (evaluate m)
unfolding evaluate Judged
evaluate-Judged m = elim (Option-cases (get m.control_variant m.metrics)) [
  | inl e ↦ rw (e, evaluate) tt
  | inr (c, e) ↦ elim (Option-cases (get m.treatment_variant m.metrics)) [
    | inl f ↦ rw (e, f, evaluate) tt
    | inr (t, f) ↦
        let judged : Judged (some (result_of m c t)) = result_of-IsConfidence m c t in
        rw (evaluate-found m c t e f) judged
  ]
]

-- Whatever metrics there are, the confidence of a result that `evaluate` returns is a number between
-- 0 and 1, with no division by 0, and it is 0 if one of the variants has fewer inferences than
-- `min_samples`.
pub evaluate-IsConfidence :
    (m : AbTestManager) (r : AbTestResult)
    → evaluate m ≡ some r
    → IsConfidence r.sufficient_samples r.confidence
unfolding Judged
evaluate-IsConfidence m r h = subst Judged h (evaluate-Judged m)
