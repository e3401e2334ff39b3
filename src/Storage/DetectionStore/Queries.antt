-- ===== src/Storage/DetectionStore/Queries.antt =====
-- What a query of the detection store gives back.
use neuro_pipeline.Prelude.{
  ℕ, All-take, All_filtered, ◌≤◌, ◌≡◌, refl, String, true, List, arith, filter, length, length-take,
  take, All,
}
use mathlib.Core.List.{Perm}
use neuro_pipeline.Prelude.Sort.{IsSorted, sorted-IsSorted, sorted-perm, All-sorted}
use neuro_pipeline.Prelude.Newest.{newer, newest_first, newer-IsOrder}
use neuro_pipeline.Storage.DetectionStore.{DetectionRow, DetectionStore, or_now, selects, query}

module _ (now since until limit : ℕ) (device_id : String) (s : DetectionStore) where
  abbrev pub selected : List DetectionRow
  selected = filter (selects since (or_now now until) device_id) s.detections

  pub query_lem :
      ((found : List DetectionRow) × Perm found selected
        × IsSorted (newer (λ r. r.timestamp)) found
        × (query now since until limit device_id s ≡ take limit found))
      × All
          (λ r. selects since (or_now now until) device_id r ≡ true)
          (query now since until limit device_id s)
      × (length (query now since until limit device_id s) ≤ limit)
  unfolding query
  query_lem =
      let order = newer (λ (r : DetectionRow). r.timestamp) in
      let found = newest_first (λ (r : DetectionRow). r.timestamp) selected in
      (
        (
          found,
          sorted-perm order selected,
          sorted-IsSorted order (newer-IsOrder (λ r. r.timestamp)) selected,
          refl,
        ),
        All-take _ limit found (
            All-sorted order (λ r. selects since (or_now now until) device_id r ≡ true) selected
              (All_filtered (selects since (or_now now until) device_id) s.detections)),
        omega (arith, length-take limit found),
      )
