-- ===== src/ModelManagement/VlmValidator/Passed.antt =====
-- Which models vlm_validator.py passes.
use neuro_pipeline.Prelude.{
  ℕ, ◌-◌, ◌*◌, ◌≡◌, refl, String, Bool, true, false, not, ◌&&◌, List, [], ◌∷◌, ◌++◌, length, ltb,
  leb, ◌==◌, arith, Bool-cases, inl, inr, if◌then◌else◌,
}
use neuro_pipeline.Prelude.Fraction.{Fraction}
use neuro_pipeline.Prelude.Text.{◌⊕◌}
use neuro_pipeline.ModelManagement.VlmValidator.{
  ValidationResult, VlmValidator, World, Answer, answers, raises, Model, new_result, add_error,
  run_inference, speed, too_slow, check_load_time, benchmark, check_speed, judge, load_and_run,
  validate,
}

-- Whether the test run answers, fast enough.
is_fast : ℕ → ℕ → Answer ℕ → Bool
is_fast min_tps time (raises e) = false
is_fast min_tps time (answers tokens) =
    if time == 0 then min_tps == 0 else leb (min_tps * time) tokens

is_good : World → VlmValidator → Answer Model → Bool
unfolding is_fast
is_good w v (raises e) = false
is_good w v (answers model) =
    leb (w.load_ended - w.load_started) v.max_load_time
    && is_fast v.min_tps (w.run_ended - w.run_started) (run_inference v.test_prompt model)

-- What a model has to do to pass: it is there, it loads in time, and it answers fast enough. A run of
-- no measured time has a speed of 0.
unfoldable pub accepts : World → VlmValidator → Bool
unfolding is_good
accepts w v = w.exists && is_good w v w.load_model

-- Passed, or with an error.
pub record IsJudged (b : Bool) (r : ValidationResult) : Type 0 where
  pub is_passed : r.passed ≡ b
  pub is_clean : (length r.errors == 0) ≡ b

is_fast-raises : (min_tps time : ℕ) (e : String) → is_fast min_tps time (raises e) ≡ false
unfolding is_fast
is_fast-raises min_tps time e = refl

no_error-fast :
    (min_tps tokens time : ℕ)
    → too_slow min_tps (speed tokens time) ≡ not (is_fast min_tps time (answers tokens))
unfolding too_slow speed is_fast
no_error-fast min_tps tokens time = elim (Bool-cases (time == 0)) [
  | inl e ↦ rw e (ground arith)
  | inr e ↦ rw e (ground arith)
]

added-not_empty : (es : List String) (e : String) → (length (es ++ (e ∷ [])) == 0) ≡ false
added-not_empty [] e = refl
added-not_empty (x ∷ es) e = ground arith

and_false : (b : Bool) → (b && false) ≡ false
and_false b = ground arith

and_true : (b : Bool) → (b && true) ≡ b
and_true b = ground arith

flip : (a b : Bool) → a ≡ not b → b ≡ not a
flip a b h = ground arith

-- A result after the load.
abbrev loaded : String → ℕ → List String → ValidationResult
loaded model_path time errors = record (new_result model_path) {
  load_time = time;
  load_success = true;
  errors = errors;
}

module _ (decimal : ℕ → String) (speed_text : Fraction → String) (w : World)
    (v : VlmValidator) where
  with_error :
      (e : String) (r : ValidationResult)
      → IsJudged false (judge decimal speed_text (add_error e r))
  unfolding judge add_error
  with_error e r = record {
    is_passed = rw (added-not_empty r.errors e) (and_false _);
    is_clean = added-not_empty r.errors e;
  }

  tested :
      (model_path : String) (time : ℕ) (answer : Answer ℕ) (errors : List String)
      → IsJudged ((length errors == 0) && is_fast v.min_tps (w.run_ended - w.run_started) answer) (
          judge decimal speed_text (
            check_speed decimal speed_text v
              (benchmark decimal speed_text w answer (loaded model_path time errors))))
  unfolding judge check_speed benchmark add_error new_result
  tested model_path time (raises e) errors =
      rw
        (
          and_false (too_slow v.min_tps (record { num = 0; den = 1 })),
          is_fast-raises v.min_tps (w.run_ended - w.run_started) e,
          and_false (length errors == 0),
        )
        (with_error ("Inference failed: " ⊕ e) (loaded model_path time errors))
  tested model_path time (answers tokens) errors =
      let took = w.run_ended - w.run_started in
      let is_fast_enough = flip _ _ (no_error-fast v.min_tps tokens took) in
      elim (Bool-cases (too_slow v.min_tps (speed tokens took))) [
        | inl slow ↦
            rw (is_fast_enough, slow, and_false (length errors == 0))
              (with_error _
                (benchmark decimal speed_text w (answers tokens) (loaded model_path time errors)))
        | inr fast ↦
            rw (is_fast_enough, fast, and_true (length errors == 0))
              (record { is_passed = refl; is_clean = refl })
      ]

  ran :
      (model_path : String) (answer : Answer Model)
      → IsJudged
          (is_good w v answer)
          (load_and_run decimal speed_text w v answer (new_result model_path))
  unfolding load_and_run is_good check_load_time add_error new_result
  ran model_path (raises e) = record { is_passed = refl; is_clean = refl }
  ran model_path (answers model) =
      let took = w.load_ended - w.load_started in
      let answer = run_inference v.test_prompt model in
      elim (Bool-cases (ltb v.max_load_time took)) [
        | inl late ↦
            let not_in_time : leb took v.max_load_time ≡ false = ground (arith, late) in
            rw (late, not_in_time) (tested model_path took answer (_ ∷ []))
        | inr soon ↦
            let in_time : leb took v.max_load_time ≡ true = ground (arith, soon) in
            rw (soon, in_time) (tested model_path took answer [])
      ]

  found :
      (model_path : String) (exists : Bool)
      → IsJudged (exists && is_good w v w.load_model) (
          if exists
          then load_and_run decimal speed_text w v w.load_model (new_result model_path)
          else add_error ("Model path does not exist: " ⊕ model_path) (new_result model_path))
  unfolding add_error new_result
  found model_path true = ran model_path w.load_model
  found model_path false = record { is_passed = refl; is_clean = refl }

  -- A model passes exactly if it is there, loads within the maximal time, and answers the test prompt
  -- with at least the minimal number of tokens for the time that this took, where a run of no measured
  -- time passes only if the minimum is 0. It passes exactly if no error is reported.
  pub validate-IsJudged :
      (model_path : String) → IsJudged (accepts w v) (validate decimal speed_text w model_path v)
  unfolding validate accepts
  validate-IsJudged model_path = found model_path w.exists
