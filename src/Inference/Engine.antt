-- ===== src/Inference/Engine.antt =====
-- mac-central/src/inference/mlx_llm_inference.py: `batch_analyze`. What the model answers to one image
-- and prompt is a parameter: a text, or the text of the exception.
use neuro_pipeline.Prelude.{
  ℕ, suc, String, Bool, true, false, List, [], ◌∷◌, if◌then◌else◌, Option, none, some, length, ◌≡◌,
  refl, ap,
}
use neuro_pipeline.Prelude.Text.{prefix, ◌⊕◌}

-- What `analyze_image` does: it returns a text, or raises an exception with this text.
pub data Outcome : Type 0 where
  returned : String → Outcome
  raised : String → Outcome

pub record BatchItem : Type 0 where
  pub frame_data : List ℕ
  pub prompt : String

-- `[f"[STUB] batch {i}: …" for i, item in enumerate(items)]`, with the decimal notation of numbers
-- given.
pub stub_results : (ℕ → String) → ℕ → List BatchItem → List String
stub_results decimal i [] = []
stub_results decimal i (item ∷ items) =
    ("[STUB] batch " ⊕ (decimal i ⊕ (": " ⊕ prefix 60 item.prompt)))
    ∷ stub_results decimal (suc i) items

pub result_text : Outcome → String
result_text (returned s) = s
result_text (raised e) = "[ERROR] " ⊕ e

pub sequential_results : (BatchItem → Outcome) → List BatchItem → List String
unfolding result_text
sequential_results analyze_image [] = []
sequential_results analyze_image (item ∷ items) =
    result_text (analyze_image item) ∷ sequential_results analyze_image items

-- `none` where it raises because no model is loaded.
pub batch_analyze :
    (ℕ → String) → Bool → Bool → (BatchItem → Outcome) → List BatchItem → Option (List String)
unfolding stub_results sequential_results
batch_analyze decimal loaded use_stub analyze_image items =
    if loaded
    then if use_stub
      then some (stub_results decimal 0 items)
      else some (sequential_results analyze_image items)
    else none

length-stub_results :
    (decimal : ℕ → String) (i : ℕ) (items : List BatchItem)
    → length (stub_results decimal i items) ≡ length items
unfolding stub_results
length-stub_results decimal i [] = refl
length-stub_results decimal i (item ∷ items) = ap suc (length-stub_results decimal (suc i) items)

length-sequential_results :
    (analyze_image : BatchItem → Outcome) (items : List BatchItem)
    → length (sequential_results analyze_image items) ≡ length items
unfolding sequential_results
length-sequential_results analyze_image [] = refl
length-sequential_results analyze_image (item ∷ items) =
    ap suc (length-sequential_results analyze_image items)

-- With a loaded model there is one result for each item.
pub batch_analyze-length :
    (decimal : ℕ → String) (use_stub : Bool) (analyze_image : BatchItem → Outcome)
    (items : List BatchItem)
    → (results : List String) × (batch_analyze decimal true use_stub analyze_image items
        ≡ some results)
      × (length results ≡ length items)
unfolding batch_analyze
batch_analyze-length decimal true analyze_image items =
    (stub_results decimal 0 items, refl, length-stub_results decimal 0 items)
batch_analyze-length decimal false analyze_image items =
    (sequential_results analyze_image items, refl, length-sequential_results analyze_image items)
