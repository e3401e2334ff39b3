-- ===== src/Inference/RagRetriever/Items.antt =====
-- The history that rag_retriever.py finds.
use neuro_pipeline.Prelude.{
  ℕ, ◌-◌, ◌*◌, ◌≤◌, ◌≡◌, ap, String, true, List, [], ◌∷◌, some, arith, length, length-take, All,
  All-take, All-filter, All_filtered,
}
use neuro_pipeline.Storage.DetectionStore.{DetectionRow, DetectionStore, or_now, selects, query}
use neuro_pipeline.Storage.DetectionStore.Queries.{query_lem}
use neuro_pipeline.Inference.RagRetriever.{
  RagRetriever, Format, mentions, by_class, window, retrieve_from, retrieve,
}

-- A row of one of the classes, of any if none is named.
abbrev pub IsWanted : List String → DetectionRow → Type 0
IsWanted [] r = Unit
IsWanted (c ∷ cs) r = mentions (c ∷ cs) r ≡ true

rows-IsWanted : (rows : List DetectionRow) → All (IsWanted []) rows
rows-IsWanted [] = tt
rows-IsWanted (r ∷ rows) = (tt, rows-IsWanted rows)

by_class-IsWanted :
    (cs : List String) (rows : List DetectionRow) → All (IsWanted cs) (by_class cs rows)
unfolding by_class
by_class-IsWanted [] rows = rows-IsWanted rows
by_class-IsWanted (c ∷ cs) rows = All_filtered (mentions (c ∷ cs)) rows

All-by_class :
    (P : DetectionRow → Type 0) (cs : List String) (rows : List DetectionRow)
    → All P rows
    → All P (by_class cs rows)
unfolding by_class
All-by_class P [] rows h = h
All-by_class P (c ∷ cs) rows h = All-filter P (mentions (c ∷ cs)) rows h

-- What is retrieved for a prompt is at most `max_items` events, each of the device that was asked for
-- (of any device if its name is empty), not older than the window, not newer than the clock of the
-- query, and with an object of one of the classes if classes are named.
pub retrieve_lem :
    (f : Format) (now later hours : ℕ) (device_id : String) (class_names : List String)
    (r : RagRetriever) (s : DetectionStore)
    → r.store ≡ some s
    → (length (retrieve f now later device_id class_names hours r).items ≤ r.max_items)
      × All
          (λ e. selects (now - window hours r * 3600) (or_now later 0) device_id e ≡ true)
          (retrieve f now later device_id class_names hours r).items
      × All (IsWanted class_names) (retrieve f now later device_id class_names hours r).items
unfolding retrieve retrieve_from
retrieve_lem f now later hours device_id class_names r s h =
    let found = query_lem later (now - window hours r * 3600) 0 (r.max_items * 3) device_id s in
    let wanted =
      by_class class_names
        (query later (now - window hours r * 3600) 0 (r.max_items * 3) device_id s) in
    rw (ap (retrieve_from f now later device_id class_names hours r) h) (
      omega (arith, length-take r.max_items wanted),
      All-take _ r.max_items wanted (All-by_class _ class_names _ found.1),
      All-take (IsWanted class_names) r.max_items wanted (by_class-IsWanted class_names _),
    )
