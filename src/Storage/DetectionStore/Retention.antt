-- ===== src/Storage/DetectionStore/Retention.antt =====
-- What `cleanup` of the detection store takes away.
use neuro_pipeline.Prelude.{
  ℕ, ◌+◌, ◌-◌, ◌*◌, ◌≤◌, ◌≡◌, refl, ap, ◌∙◌, String, Bool, not, ◌&&◌, List, [], ◌∷◌, arith, filter,
  filter-filter, length, take,
}
use neuro_pipeline.Prelude.Newest.{newest_first}
use neuro_pipeline.Storage.DetectionStore.{
  DetectionRow, DetectionStore, day, is_old, in_range, or_now, selects, query, cleanup, count,
}

filter_same {ℓ} :
    {A : Type ℓ} (p q : A → Bool) (l : List A) → ((a : A) → p a ≡ q a) → filter p l ≡ filter q l
filter_same p q [] h = refl
filter_same p q (a ∷ l) h = ground (arith, h a, filter_same p q l h)

length-filter-not {ℓ} :
    {A : Type ℓ} (p : A → Bool) (l : List A)
    → length (filter (λ a. not (p a)) l) + length (filter p l) ≡ length l
length-filter-not p [] = omega arith
length-filter-not p (a ∷ l) = ground (arith, length-filter-not p l)

not_old :
    (cutoff since until : ℕ) (device_id : String) (r : DetectionRow)
    → cutoff ≤ since
    → (not (is_old cutoff r) && selects since until device_id r) ≡ selects since until device_id r
unfolding is_old selects in_range
not_old cutoff since until device_id r h = ground arith

-- A clean-up is not seen by a query that begins inside the retention time, now or later; the rows that
-- are left and those that were deleted are together all rows.
pub query-cleanup :
    (now later since until limit : ℕ) (device_id : String) (s : DetectionStore)
    → now - s.retention_days * day ≤ since
    → (query later since until limit device_id (cleanup now s).0
        ≡ query later since until limit device_id s)
      × (count (cleanup now s).0 + (cleanup now s).1 ≡ count s)
unfolding query cleanup count
query-cleanup now later since until limit device_id s h =
    let cutoff = now - s.retention_days * day in
    let same =
      filter-filter (selects since (or_now later until) device_id) (λ r. not (is_old cutoff r))
        s.detections
      ∙ filter_same _ (selects since (or_now later until) device_id) s.detections
          (λ r. not_old cutoff since (or_now later until) device_id r h) in
    (
      ap (λ rows. take limit (newest_first (λ r. r.timestamp) rows)) same,
      length-filter-not (is_old cutoff) s.detections,
    )
