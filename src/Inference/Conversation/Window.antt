-- ===== src/Inference/Conversation/Window.antt =====
-- What a conversation of mlx_llm_inference.py remembers.
use neuro_pipeline.Prelude.{
  ℕ, zero, suc, ◌-◌, ◌*◌, ◌≤◌, ◌<◌, ◌≡◌, refl, List, [], ◌∷◌, ◌++◌, append-nil, append_assoc, ltb,
  length, length-append, length-drop, drop, if◌then◌else◌, Bool-cases, inl, inr, arith,
}
use neuro_pipeline.Prelude.Last.{last, last-snoc, last_nil}
use neuro_pipeline.Inference.Conversation.{Turn, ConversationContext, init, tail_slice, add_turn}

-- The call of `add_turn` for each turn.
pub add_all : List Turn → ConversationContext → ConversationContext
add_all [] c = c
add_all (t ∷ ts) c = add_all ts (add_turn t.role t.content c)

tail_slice-last : (n : ℕ) (ts : List Turn) → 0 < n → tail_slice n ts ≡ last n ts
tail_slice-last zero ts h = absurd (omega arith)
tail_slice-last (suc n) ts h = refl

length-last : (n : ℕ) (ts : List Turn) → length (last n ts) ≤ n
length-last n ts = rw (length-drop (length ts - n) ts) (omega arith)

slide :
    (n : ℕ) (ts : List Turn)
    → 0 < n
    → length ts ≤ suc n
    → (if ltb n (length ts) then tail_slice n ts else ts)
      ≡ (if ltb n (length ts) then drop 1 ts else ts)
slide n ts some_turns short = elim (Bool-cases (ltb n (length ts))) [
  | inl e ↦
      let one : length ts - n ≡ 1 = ground arith in
      rw (e, tail_slice-last n ts some_turns, one) refl
  | inr e ↦ rw e refl
]

add_turn-last :
    (t : Turn) (c : ConversationContext) (before : List Turn)
    → 0 < c.max_turns
    → c.history ≡ last (c.max_turns * 2) before
    → (add_turn t.role t.content c).history ≡ last (c.max_turns * 2) (before ++ (t ∷ []))
unfolding add_turn
add_turn-last t c before some_turns h =
    rw (h, ← last-snoc (c.max_turns * 2) before t)
      (slide (c.max_turns * 2) (last (c.max_turns * 2) before ++ (t ∷ [])) (omega arith) (
        omega (
          arith,
          length-append (last (c.max_turns * 2) before) (t ∷ []),
          length-last (c.max_turns * 2) before,
        )))

add_all-last :
    (ts : List Turn) (c : ConversationContext) (before : List Turn)
    → 0 < c.max_turns
    → c.history ≡ last (c.max_turns * 2) before
    → (add_all ts c).history ≡ last (c.max_turns * 2) (before ++ ts)
unfolding add_all add_turn
add_all-last [] c before some_turns h = rw (append-nil before) h
add_all-last (t ∷ ts) c before some_turns h =
    let rest =
      add_all-last ts (add_turn t.role t.content c) (before ++ (t ∷ [])) some_turns
        (add_turn-last t c before some_turns h) in
    rw (append_assoc before (t ∷ []) ts) at rest

-- A conversation with a positive `max_turns` remembers exactly the last `2 * max_turns` turns that
-- were added to it, in their order.
pub add_all-history :
    (ts : List Turn) (max_turns : ℕ)
    → 0 < max_turns
    → (add_all ts (init max_turns)).history ≡ last (max_turns * 2) ts
unfolding init
add_all-history ts max_turns some_turns =
    add_all-last ts (init max_turns) [] some_turns (last_nil (max_turns * 2))
