-- ===== src/Inference/ReasoningChain.antt =====
-- mac-central/src/inference/reasoning_chain.py: `ReasoningChain`. What the engine answers to a step,
-- the clocks and the failures of the store come from a `World` for each step. Percentages and the
-- timeout are texts that are given.
pub mod Steps
mod Tests
use neuro_pipeline.Prelude.{
  ℕ, zero, suc, String, Bool, true, false, not, ◌&&◌, List, [], ◌∷◌, ◌++◌, map, Option, none, some,
  str_eq, length, take, if◌then◌else◌,
}
use neuro_pipeline.Prelude.Int.{ℤ, pos, pos_part, leb_ℤ}
use neuro_pipeline.Prelude.Text.{prefix, join, ◌⊕◌}
use neuro_pipeline.Pipeline.Detection.{Detection}

pub record ReasoningStep : Type 0 where
  pub step_name : String
  pub prompt : String
  pub result : String
  pub elapsed_ms : ℕ
  pub timestamp : ℕ

-- What `wait_for(analyze_image(…))` does: it returns, it is too late, or it raises with this text.
pub data Answer : Type 0 where
  answered : String → Answer
  timed_out : Answer
  failed : String → Answer

-- What the two calls of `record_conversation` after a step do.
pub data Saving : Type 0 where
  both_saved second_fails first_fails : Saving

pub record World : Type 0 where
  pub analyze_image : String → Answer
  pub timestamp : ℕ
  pub elapsed_ms : ℕ
  pub saving : Saving

-- A turn that is recorded: the role and the content; its type is always "reasoning".
pub record Turn : Type 0 where
  pub role : String
  pub content : String

pub record ReasoningResult : Type 0 where
  pub steps : List ReasoningStep
  pub final_conclusion : String
  pub success : Bool

pub record ReasoningChain : Type 0 where
  pub max_steps : ℤ
  pub timeout_per_step : String

-- `min(max_steps, 3)`
pub init : ℤ → String → ReasoningChain
init max_steps timeout_per_step = record {
  max_steps = if leb_ℤ max_steps (pos 3) then max_steps else pos 3;
  timeout_per_step = timeout_per_step;
}

abbrev pub step_names : List String
step_names = "observe" ∷ "reason" ∷ "verify" ∷ []

nth_result : ℕ → List ReasoningStep → String
nth_result n [] = ""
nth_result zero (s ∷ steps) = s.result
nth_result (suc n) (s ∷ steps) = nth_result n steps

pub observation : ReasoningResult → String
unfolding nth_result
observation r = nth_result 0 r.steps

pub reasoning : ReasoningResult → String
unfolding nth_result
reasoning r = nth_result 1 r.steps

pub verification : ReasoningResult → String
unfolding nth_result
verification r = nth_result 2 r.steps

pub detection_text : (ℕ → String) → Detection → String
detection_text percent d = d.class_name ⊕ (" (" ⊕ (percent d.confidence ⊕ ")"))

pub det_summary : (ℕ → String) → List Detection → String
unfolding detection_text
det_summary percent [] = "no objects"
det_summary percent (d ∷ ds) = join "; " (map (detection_text percent) (d ∷ ds))

pub build_step_prompt : (ℕ → String) → String → List Detection → String → String
unfolding det_summary
build_step_prompt percent name detections context =
    if str_eq name "observe"
    then "Observe this scene carefully. Detected objects: "
      ⊕ (det_summary percent detections
          ⊕ (". Describe exactly what you see — objects, positions, actions, "
              ⊕ "and environmental context. Be factual and specific."))
    else if str_eq name "reason"
    then "Based on this observation: \""
      ⊕ (prefix 300 context
          ⊕ ("\" Now reason about what is happening. What activities are taking place? "
              ⊕ ("Are there any safety concerns, unusual patterns, or noteworthy interactions? "
                  ⊕ "Explain your reasoning step by step.")))
    else if str_eq name "verify"
    then "Based on this analysis: \""
      ⊕ (prefix 300 context
          ⊕ ("\" Verify your conclusions. Rate confidence (high/medium/low). "
              ⊕ ("Identify what could be wrong with the analysis. "
                  ⊕ "Provide a final concise assessment with actionable recommendations.")))
    else "Analyze: " ⊕ det_summary percent detections

pub turns_of : Saving → ReasoningStep → List Turn
turns_of first_fails s = []
turns_of second_fails s =
    record { role = "system"; content = "[" ⊕ (s.step_name ⊕ ("] " ⊕ s.prompt)) } ∷ []
turns_of both_saved s =
    record { role = "system"; content = "[" ⊕ (s.step_name ⊕ ("] " ⊕ s.prompt)) }
    ∷ record { role = "assistant"; content = prefix 500 s.result }
    ∷ []

-- The `result` of the step.
pub result_of : String → Answer → String
result_of timeout (answered r) = r
result_of timeout timed_out = "[timeout after " ⊕ (timeout ⊕ "s]")
result_of timeout (failed e) = "[error: " ⊕ (e ⊕ "]")

module _ (percent : ℕ → String) (detections : List Detection) (w : String → World) where
  -- The answer to the step with this name.
  pub answer : String → String → Answer
  unfolding build_step_prompt
  answer name context = (w name).analyze_image (build_step_prompt percent name detections context)

module _ (percent : ℕ → String) (timeout : String) (detections : List Detection) (persists : Bool)
    (w : String → World) where
  pub step_of : String → String → Answer → ReasoningStep
  unfolding result_of
  step_of name context a = record {
    step_name = name;
    prompt = build_step_prompt percent name detections context;
    result = result_of timeout a;
    elapsed_ms = (w name).elapsed_ms;
    timestamp = (w name).timestamp;
  }

  -- One turn of the loop from the answer on, given what the later turns do with a result: the steps,
  -- and the turns of the conversation that are recorded.
  pub proceed :
      String
      → String
      → Answer
      → (String → List ReasoningStep × List Turn)
      → List ReasoningStep × List Turn
  unfolding step_of turns_of
  proceed name context (answered r) later = (
    step_of name context (answered r) ∷ (later r).0,
    (if persists then turns_of (w name).saving (step_of name context (answered r)) else [])
        ++ (later r).1,
  )
  proceed name context timed_out later = (step_of name context timed_out ∷ [], [])
  proceed name context (failed e) later = (step_of name context (failed e) ∷ [], [])

  pub run_steps : List String → String → List ReasoningStep × List Turn
  unfolding proceed answer
  run_steps [] context = ([], [])
  run_steps (name ∷ names) context =
      proceed name context (answer percent detections w name context) (run_steps names)

-- `len(result.steps) == self.max_steps`
pub has_length : ℤ → ℕ → Bool
has_length max_steps n = leb_ℤ max_steps (pos n) && leb_ℤ (pos n) max_steps

pub last_result : List ReasoningStep → String
last_result [] = ""
last_result (s ∷ []) = s.result
last_result (s ∷ t ∷ steps) = last_result (t ∷ steps)

-- The result, and the turns that are recorded if there is a store and a device.
pub execute :
    (ℕ → String)
    → (String → World)
    → List Detection
    → String
    → Bool
    → ReasoningChain
    → ReasoningResult × List Turn
unfolding run_steps has_length last_result
execute percent w detections device_id detection_store c =
    let ran =
      run_steps percent c.timeout_per_step detections (detection_store && not (str_eq device_id ""))
        w (take (pos_part c.max_steps) step_names) "" in
    (
      record {
        steps = ran.0;
        final_conclusion = last_result ran.0;
        success = has_length c.max_steps (length ran.0);
      },
      ran.1,
    )
