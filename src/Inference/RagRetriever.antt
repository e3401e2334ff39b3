-- ===== src/Inference/RagRetriever.antt =====
-- mac-central/src/inference/rag_retriever.py: `RAGRetriever` over the detection store. Times are
-- seconds; the decimal notation of numbers and the clock times in the summary are texts that are given,
-- and the time that the retrieval took is left out.
pub mod Items
mod Tests
use neuro_pipeline.Prelude.{
  ℕ, ◌-◌, ◌*◌, String, Bool, true, false, List, [], ◌∷◌, map, Option, none, some, str_eq, ◌==◌, any,
  filter, length, take, if◌then◌else◌,
}
use neuro_pipeline.Prelude.Text.{prefix, join, ◌⊕◌}
use neuro_pipeline.Pipeline.Detection.{Detection}
use neuro_pipeline.Storage.DetectionStore.{DetectionRow, DetectionStore, query}

pub record RagRetriever : Type 0 where
  pub store : Option DetectionStore
  pub max_items : ℕ
  pub time_window_hours : ℕ

pub record RagContext : Type 0 where
  pub items : List DetectionRow
  pub summary : String

-- How numbers and times of the day are written.
pub record Format : Type 0 where
  pub decimal : ℕ → String
  pub clock : ℕ → String

-- `any(d.get("class_name") in class_names for d in dets)`
pub mentions : List String → DetectionRow → Bool
mentions class_names r = any (λ d. any (str_eq d.class_name) class_names) r.detections

-- The filter, which is there if some class is named.
pub by_class : List String → List DetectionRow → List DetectionRow
unfolding mentions
by_class [] rows = rows
by_class (c ∷ cs) rows = filter (mentions (c ∷ cs)) rows

class_list : List Detection → String
class_list [] = "none"
class_list (d ∷ ds) = join ", " (map (λ (e : Detection). e.class_name) (d ∷ ds))

vlm_text : Option String → String
vlm_text none = ""
vlm_text (some s) = if str_eq s "" then "" else " — VLM: " ⊕ prefix 80 s

line_of : Format → DetectionRow → String
unfolding class_list vlm_text
line_of f r =
    "  ["
    ⊕ ((if r.timestamp == 0 then "?" else f.clock r.timestamp)
        ⊕ ("] " ⊕ (r.event_type ⊕ (": " ⊕ (class_list r.detections ⊕ vlm_text r.vlm_result)))))

pub format_summary : Format → List DetectionRow → String → ℕ → String
unfolding line_of
format_summary f [] device_id hours =
    "No recent events for device " ⊕ (device_id ⊕ (" in the last " ⊕ (f.decimal hours ⊕ "h.")))
format_summary f (r ∷ rows) device_id hours = join "\n" (
    ("Recent history for "
      ⊕ (device_id
          ⊕ (" ("
              ⊕ (f.decimal (length (r ∷ rows)) ⊕ (" events, last " ⊕ (f.decimal hours ⊕ "h):"))))))
    ∷ map (line_of f) (r ∷ rows))

-- `time_window_hours or self._time_window_hours`
pub window : ℕ → RagRetriever → ℕ
window hours r = if hours == 0 then r.time_window_hours else hours

-- `retrieve` for the store that is there, if one is; the clock is read before and in the query.
pub retrieve_from :
    Format → ℕ → ℕ → String → List String → ℕ → RagRetriever → Option DetectionStore → RagContext
unfolding by_class window format_summary
retrieve_from f now later device_id class_names hours r none = record {
  items = [];
  summary = "No history available.";
}
retrieve_from f now later device_id class_names hours r (some s) =
    let rows = query later (now - window hours r * 3600) 0 (r.max_items * 3) device_id s in
    let items = take r.max_items (by_class class_names rows) in
    record { items = items; summary = format_summary f items device_id (window hours r) }

pub retrieve : Format → ℕ → ℕ → String → List String → ℕ → RagRetriever → RagContext
unfolding retrieve_from
retrieve f now later device_id class_names hours r =
    retrieve_from f now later device_id class_names hours r r.store

pub format_for_prompt : RagContext → String
format_for_prompt c = c.summary
