-- ===== src/Inference/ReasoningChain/Steps.antt =====
-- The steps that reasoning_chain.py makes.
use neuro_pipeline.Prelude.{
  ℕ, zero, suc, ◌<◌, ◌≡◌, refl, ap, ◌∙◌, String, Bool, true, false, List, [], ◌∷◌, length, take,
  arith, ◌==◌, not, ◌&&◌, str_eq,
}
use neuro_pipeline.Prelude.Int.{ℤ, pos}
use neuro_pipeline.Pipeline.Detection.{Detection}
use neuro_pipeline.Inference.ReasoningChain.{
  ReasoningStep, Turn, Answer, answered, timed_out, failed, World, init, step_names,
  build_step_prompt, result_of, step_of, proceed, answer, run_steps, has_length, execute,
}

module _ (percent : ℕ → String) (detections : List Detection) where
  -- Each step is asked with the result of the step before it.
  unfoldable pub IsLinked : String → List ReasoningStep → Type 0
  IsLinked context [] = Unit
  IsLinked context (s ∷ steps) =
      (s.prompt ≡ build_step_prompt percent s.step_name detections context)
      × IsLinked s.result steps

abbrev continues : Answer → (String → Bool) → Bool
continues (answered r) later = later r
continues timed_out later = false
continues (failed e) later = false

module _ (percent : ℕ → String) (detections : List Detection) (w : String → World) where
  -- Whether every step is answered that stands before the last.
  unfoldable pub reaches_last : List String → String → Bool
  unfolding answer
  reaches_last [] context = true
  reaches_last (name ∷ []) context = true
  reaches_last (name ∷ next ∷ names) context =
      continues (answer percent detections w name context) (reaches_last (next ∷ names))

module _ (percent : ℕ → String) (timeout : String) (detections : List Detection) (persists : Bool)
    (w : String → World) where
  abbrev run : List String → String → List ReasoningStep × List Turn
  run = run_steps percent timeout detections persists w

  proceed-IsLinked :
      (name context : String) (a : Answer) (later : String → List ReasoningStep × List Turn)
      → ((r : String) → IsLinked percent detections r (later r).0)
      → IsLinked percent detections context
          (proceed percent timeout detections persists w name context a later).0
  unfolding proceed step_of result_of IsLinked
  proceed-IsLinked name context (answered r) later h = (refl, h r)
  proceed-IsLinked name context timed_out later h = (refl, tt)
  proceed-IsLinked name context (failed e) later h = (refl, tt)

  run_steps-IsLinked :
      (names : List String) (context : String)
      → IsLinked percent detections context (run names context).0
  unfolding run_steps IsLinked
  run_steps-IsLinked [] context = tt
  run_steps-IsLinked (name ∷ names) context =
      proceed-IsLinked name context (answer percent detections w name context) (run names)
        (run_steps-IsLinked names)

  -- A step with no step after it is made, whatever is answered.
  proceed_last :
      (name context : String) (a : Answer) (later : String → List ReasoningStep × List Turn)
      → ((r : String) → (later r).0 ≡ [])
      → length (proceed percent timeout detections persists w name context a later).0 ≡ 1
  unfolding proceed
  proceed_last name context (answered r) later h = omega (arith, ap length (h r))
  proceed_last name context timed_out later h = refl
  proceed_last name context (failed e) later h = refl

  length-proceed :
      (name context : String) (a : Answer) (later : String → List ReasoningStep × List Turn)
      (more : String → Bool) (n : ℕ)
      → ((r : String) → (length (later r).0 == suc n) ≡ more r)
      → (length (proceed percent timeout detections persists w name context a later).0
          == suc (suc n))
        ≡ continues a more
  unfolding proceed
  length-proceed name context (answered r) later more n h = ground (arith, h r)
  length-proceed name context timed_out later more n h = ground arith
  length-proceed name context (failed e) later more n h = ground arith

  length-run_steps :
      (names : List String) (context : String)
      → (length (run names context).0 == length names)
        ≡ reaches_last percent detections w names context
  unfolding run_steps reaches_last
  length-run_steps [] context = refl
  length-run_steps (name ∷ []) context =
      let one =
        proceed_last name context (answer percent detections w name context) (run []) (λ r. refl) in
      ground arith
  length-run_steps (name ∷ next ∷ names) context =
      length-proceed name context (answer percent detections w name context) (run (next ∷ names))
        (reaches_last percent detections w (next ∷ names)) (length names)
        (length-run_steps (next ∷ names))

has_length-eq : (n k : ℕ) → has_length (pos n) k ≡ (k == n)
unfolding has_length
has_length-eq n k = ground arith

module _ (percent : ℕ → String) (w : String → World) (detections : List Detection)
    (device_id timeout : String) (detection_store : Bool) where
  abbrev executed : ℤ → List ReasoningStep
  executed max_steps =
      (execute percent w detections device_id detection_store (init max_steps timeout)).0.steps

  length-run :
      (names : List String) (context : String)
      → has_length (pos (length names)) (
          length
            (run percent timeout detections
              (detection_store && not (str_eq device_id ""))
              w
              names
              context).0)
        ≡ reaches_last percent detections w names context
  length-run names context =
      has_length-eq (length names) _
      ∙ length-run_steps percent timeout detections (detection_store && not (str_eq device_id "")) w
          names context

  -- Every step after the first is asked with the result of the step before it, cut to 300 characters
  -- by its prompt: the text of a timeout or of an error is never in a prompt, since the chain ends
  -- with it.
  pub execute-IsLinked : (max_steps : ℤ) → IsLinked percent detections "" (executed max_steps)
  unfolding execute init
  execute-IsLinked max_steps = run_steps-IsLinked percent timeout detections _ w _ ""

  -- `success` does not say that the chain was completed. With one, two or three steps it is set
  -- exactly if every step that stands before the last one is answered; whether the last step is
  -- answered, is late or raises makes no difference.
  pub execute-success :
      (n : ℕ)
      → n < 4
      → (execute percent w detections device_id detection_store (init (pos n) timeout)).0.success
        ≡ reaches_last percent detections w (take n step_names) ""
  unfolding execute init
  execute-success zero h = length-run [] ""
  execute-success (suc zero) h = length-run (take 1 step_names) ""
  execute-success (suc (suc zero)) h = length-run (take 2 step_names) ""
  execute-success (suc (suc (suc zero))) h = length-run step_names ""
  execute-success (suc (suc (suc (suc n)))) h = absurd (omega arith)
