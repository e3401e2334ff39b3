-- ===== src/Inference/ReasoningChain/Tests.antt =====
-- Runs of reasoning_chain.py.
use neuro_pipeline.Prelude.{◌≡◌, refl, ℕ, String, true, [], arith, str_eq, if◌then◌else◌}
use neuro_pipeline.Prelude.Int.{pos}
use neuro_pipeline.Inference.ReasoningChain.{
  World, answered, failed, both_saved, init, execute, answer, build_step_prompt,
}
use neuro_pipeline.Inference.ReasoningChain.Steps.{reaches_last, execute-success}

abbrev percent : ℕ → String
percent n = "90%"

-- The first step is answered and the second raises.
abbrev second_fails : String → World
second_fails name = record {
  analyze_image =
      λ prompt. if str_eq name "observe" then answered "a room" else failed "out of memory";
  timestamp = 7;
  elapsed_ms = 20;
  saving = both_saved;
}

execute-success_example :
    (execute percent second_fails [] "cam" true (init (pos 2) "15.0")).0.success ≡ true
unfolding reaches_last answer build_step_prompt
execute-success_example = execute-success percent second_fails [] "cam" "15.0" true 2 (omega arith)

conclusion_test :
    (execute percent second_fails [] "cam" true (init (pos 3) "15.0")).0.final_conclusion
    ≡ "[error: out of memory]"
unfolding execute init
conclusion_test = refl
