-- ===== src/Inference/Conversation.antt =====
-- mac-central/src/inference/mlx_llm_inference.py: `ConversationContext`, and the dictionary of contexts
-- that the engine keeps by device.
pub mod Window
mod Tests
use neuro_pipeline.Prelude.{
  ℕ, zero, suc, ◌+◌, ◌-◌, ◌*◌, ◌/◌, String, Bool, true, false, List, [], ◌∷◌, ◌++◌, map, Option,
  none, some, str_eq, ltb, ◌==◌, length, drop, if◌then◌else◌,
}
use neuro_pipeline.Prelude.Text.{join, ◌⊕◌}
use neuro_pipeline.Prelude.Dict.{Dict, get, put, contains}

pub record Turn : Type 0 where
  pub role : String
  pub content : String

pub record ConversationContext : Type 0 where
  pub max_turns : ℕ
  pub history : List Turn

pub init : ℕ → ConversationContext
init max_turns = record { max_turns = max_turns; history = [] }

-- `history[-n:]`, where `history[-0:]` is all of it.
abbrev pub tail_slice : ℕ → List Turn → List Turn
tail_slice zero turns = turns
tail_slice (suc n) turns = drop (length turns - suc n) turns

pub add_turn : String → String → ConversationContext → ConversationContext
add_turn role content c =
    let turns = c.history ++ (record { role = role; content = content } ∷ []) in
    record c {
      history =
          if ltb (c.max_turns * 2) (length turns)
          then tail_slice (c.max_turns * 2) turns
          else turns;
    }

pub line_of : Turn → String
line_of t = (if str_eq t.role "user" then "User" else "Assistant") ⊕ (": " ⊕ t.content)

pub build_prompt : String → ConversationContext → String
unfolding line_of
build_prompt new_prompt c = join "\n" (map line_of c.history ++ (("User: " ⊕ new_prompt) ∷ []))

pub clear : ConversationContext → ConversationContext
clear c = record c { history = [] }

pub turn_count : ConversationContext → ℕ
turn_count c = length c.history / 2

-- `get_conversation(device_id)`: the contexts, with a new one of 10 turns if there was none, and the
-- context of the device.
pub get_conversation :
    String → Dict ConversationContext → Dict ConversationContext × ConversationContext
get_conversation device_id cs = elim (get device_id cs) [
  | none ↦ (put device_id (init 10) cs, init 10)
  | some c ↦ (cs, c)
]

pub clear_conversation : String → Dict ConversationContext → Dict ConversationContext
unfolding clear
clear_conversation device_id cs = elim (get device_id cs) [
  | none ↦ cs
  | some c ↦ put device_id (clear c) cs
]
