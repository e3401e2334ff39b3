-- ===== src/ModelManagement/VlmValidator.antt =====
-- mac-central/src/model_management/vlm_validator.py: `VLMValidator.validate`. Times are numbers of ticks
-- and a speed is a fraction, tokens for a tick. The model's loading and its test run are parameters,
-- which answer or raise with a text; so are the notations of numbers in texts.
pub mod Passed
mod Tests
use neuro_pipeline.Prelude.{
  ℕ, ◌-◌, ◌*◌, String, Bool, true, false, ◌&&◌, List, [], ◌∷◌, ◌++◌, Option, none, some, ltb, ◌==◌,
  length, if◌then◌else◌,
}
use neuro_pipeline.Prelude.Text.{◌⊕◌}
use neuro_pipeline.Prelude.Fraction.{Fraction}

pub record ValidationResult : Type 0 where
  pub model_path : String
  pub load_success : Bool
  pub load_time : ℕ
  pub inference_success : Bool
  pub inference_time : ℕ
  pub tokens_per_second : Fraction
  pub passed : Bool
  pub errors : List String

pub record VlmValidator : Type 0 where
  pub min_tps : ℕ
  pub max_load_time : ℕ
  pub test_prompt : String

-- An answer, or the text of an exception.
pub data Answer (A : Type 0) : Type 0 where
  answers : A → Answer A
  raises : String → Answer A

-- What `mlx_vlm` does with the path: it is not installed, or it loads, and then `generate` gives a text
-- of so many words or another object.
pub data Output : Type 0 where
  words : ℕ → Output
  object : Output

pub data Model : Type 0 where
  stub : Model
  real : (String → Answer Output) → Model

pub record World : Type 0 where
  pub exists : Bool
  pub load_model : Answer Model
  pub load_started : ℕ
  pub load_ended : ℕ
  pub run_started : ℕ
  pub run_ended : ℕ

new_result : String → ValidationResult
new_result model_path = record {
  model_path = model_path;
  load_success = false;
  load_time = 0;
  inference_success = false;
  inference_time = 0;
  tokens_per_second = record { num = 0; den = 1 };
  passed = false;
  errors = [];
}

add_error : String → ValidationResult → ValidationResult
add_error e r = record r { errors = r.errors ++ (e ∷ []) }

-- `_run_inference` with 50 tokens.
unfoldable pub tokens_of : Answer Output → Answer ℕ
tokens_of (answers (words n)) = answers n
tokens_of (answers object) = answers 50
tokens_of (raises e) = raises ("Inference error: " ⊕ e)

unfoldable pub run_inference : String → Model → Answer ℕ
unfolding tokens_of
run_inference prompt stub = answers 50
run_inference prompt (real generate) = tokens_of (generate prompt)

-- `output_tokens / time`, which stays 0 where no time passed.
speed : ℕ → ℕ → Fraction
speed tokens time =
    if time == 0 then record { num = 0; den = 1 } else record { num = tokens; den = time }

-- `tokens_per_second < min_tps`
too_slow : ℕ → Fraction → Bool
too_slow min_tps t = ltb t.num (min_tps * t.den)

module _ (decimal : ℕ → String) (speed_text : Fraction → String) where
  check_load_time : VlmValidator → ValidationResult → ValidationResult
  unfolding add_error
  check_load_time v r =
      if ltb v.max_load_time r.load_time
      then add_error
          ("Load time "
            ⊕ (decimal r.load_time ⊕ ("s exceeds max " ⊕ (decimal v.max_load_time ⊕ "s"))))
          r
      else r

  -- The result after the test run.
  benchmark : World → Answer ℕ → ValidationResult → ValidationResult
  unfolding add_error speed
  benchmark w (raises e) r = add_error ("Inference failed: " ⊕ e) r
  benchmark w (answers tokens) r = record r {
    inference_time = w.run_ended - w.run_started;
    inference_success = true;
    tokens_per_second = speed tokens (w.run_ended - w.run_started);
  }

  check_speed : VlmValidator → ValidationResult → ValidationResult
  unfolding add_error too_slow
  check_speed v r =
      if too_slow v.min_tps r.tokens_per_second && r.inference_success
      then add_error
          ("TPS " ⊕ (speed_text r.tokens_per_second ⊕ (" below minimum " ⊕ decimal v.min_tps))) r
      else r

  judge : ValidationResult → ValidationResult
  judge r = record r { passed = r.load_success && r.inference_success && length r.errors == 0 }

  -- The two phases of a model that is there.
  load_and_run : World → VlmValidator → Answer Model → ValidationResult → ValidationResult
  unfolding add_error check_load_time benchmark check_speed judge run_inference
  load_and_run w v (raises e) r = add_error ("Load failed: " ⊕ e) r
  load_and_run w v (answers model) r = judge (
      check_speed v (
        benchmark w (run_inference v.test_prompt model) (
          check_load_time v
            (record r { load_time = w.load_ended - w.load_started; load_success = true }))))

  pub validate : World → String → VlmValidator → ValidationResult
  unfolding load_and_run new_result add_error
  validate w model_path v =
      if w.exists
      then load_and_run w v w.load_model (new_result model_path)
      else add_error ("Model path does not exist: " ⊕ model_path) (new_result model_path)
