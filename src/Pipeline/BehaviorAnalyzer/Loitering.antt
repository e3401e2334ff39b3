-- ===== src/Pipeline/BehaviorAnalyzer/Loitering.antt =====
-- When behavior_analyzer.py reports loitering.
use neuro_pipeline.Prelude.{
  ℕ, ◌+◌, ◌*◌, ◌/◌, ◌-◌, ◌≤◌, ◌<◌, ◌≡◌, refl, String, Bool, true, false, List, [], ◌∷◌, Option,
  none, some, arith, leb, any, length, Bool-cases, inl, inr,
}
use neuro_pipeline.Pipeline.Detection.{Detection}
use neuro_pipeline.Storage.DetectionStore.{DetectionRow, DetectionStore}
use neuro_pipeline.Storage.DetectionStore.Queries.{query_lem}
use neuro_pipeline.Pipeline.BehaviorAnalyzer.{
  BehaviorAnalyzer, nothing, is_person, add_once, person_buckets, judge_history, check_loitering,
}

length-add_once : (n : ℕ) (ns : List ℕ) → length (add_once n ns) ≤ length ns + 1
unfolding add_once
length-add_once n ns = ground arith

-- Not more buckets than rows.
length-person_buckets :
    (rows : List DetectionRow) (buckets : List ℕ)
    → length (person_buckets rows buckets) ≤ length buckets + length rows
unfolding person_buckets
length-person_buckets [] buckets = omega arith
length-person_buckets (r ∷ rows) buckets = elim (Bool-cases (any is_person r.detections)) [
  | inl e ↦ rw e (
      omega (
        arith,
        length-person_buckets rows (add_once (r.timestamp / 10) buckets),
        length-add_once (r.timestamp / 10) buckets,
      ))
  | inr e ↦ rw e (omega (arith, length-person_buckets rows buckets))
]

module _ (decimal : ℕ → String) (a : BehaviorAnalyzer) (device_id : String) (timestamp : ℕ) where
  judge_history_few :
      (detections : List Detection) (rows : List DetectionRow)
      → length rows * 10 < a.loiter_threshold
      → judge_history decimal a device_id timestamp detections rows ≡ nothing
  unfolding judge_history
  judge_history_few detections [] h = refl
  judge_history_few detections (r ∷ rows) h =
      let few = length-person_buckets (r ∷ rows) [] in
      let short : leb a.loiter_threshold (length (person_buckets (r ∷ rows) []) * 10) ≡ false =
        ground arith in
      rw short (ground arith)

  -- A threshold of more than 2000 seconds is never reached, however long a person stays and however
  -- long the window is: the history is cut to 200 rows, and a row counts for ten seconds at most.
  pub check_loitering_limited :
      (now : ℕ) (fails : Bool) (detections : List Detection) (store : Option DetectionStore)
      → 2000 < a.loiter_threshold
      → check_loitering decimal a device_id timestamp now fails detections store ≡ nothing
  unfolding check_loitering
  check_loitering_limited now fails detections none h = refl
  check_loitering_limited now true detections (some s) h = refl
  check_loitering_limited now false detections (some s) h =
      let rows = query_lem now (timestamp - a.analysis_window) timestamp 200 device_id s in
      judge_history_few detections _ (omega (arith, rows.2))
