-- ===== src/Inference/Conversation/Tests.antt =====
-- Runs of the conversations of mlx_llm_inference.py.
use neuro_pipeline.Prelude.{◌≡◌, refl, String, List, [], ◌∷◌, arith}
use neuro_pipeline.Prelude.Text.{join}
use neuro_pipeline.Inference.Conversation.{Turn, init, build_prompt, line_of}
use neuro_pipeline.Inference.Conversation.Window.{add_all, add_all-history}

abbrev turn : String → String → Turn
turn role content = record { role = role; content = content }

abbrev turns : List Turn
turns =
    turn "user" "one" ∷ turn "assistant" "two" ∷ turn "user" "three" ∷ turn "assistant" "four" ∷ []

add_all-history_example :
    (add_all turns (init 1)).history ≡ turn "user" "three" ∷ turn "assistant" "four" ∷ []
add_all-history_example = add_all-history turns 1 (omega arith)

prompt_test :
    build_prompt "five" (record { max_turns = 1; history = turn "user" "three" ∷ [] })
    ≡ "User: three\nUser: five"
unfolding build_prompt join line_of
prompt_test = refl
