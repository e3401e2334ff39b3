-- ===== src/Storage/Timeseries.antt =====
-- mac-central/src/storage/_timeseries_repo.py: the table of measured values, and its two queries.
use neuro_pipeline.Prelude.{
  ℕ, ◌+◌, ◌-◌, ◌*◌, ◌/◌, String, Bool, ◌&&◌, List, [], ◌∷◌, ◌++◌, map, str_eq, ◌==◌, min, max,
  filter, length, take, if◌then◌else◌,
}
use neuro_pipeline.Prelude.Fraction.{Fraction}
use neuro_pipeline.Prelude.Newest.{oldest_first}
use neuro_pipeline.Storage.DetectionStore.{
  DetectionStore, TimePoint, of_device, in_range, or_now, day,
}

unfoldable pub record_timeseries : ℕ → String → String → ℕ → ℕ → DetectionStore → DetectionStore
unfolding or_now
record_timeseries now device_id metric_name value timestamp s = record s {
  timeseries =
      s.timeseries
      ++ (record {
        timestamp = or_now now timestamp;
        device_id = device_id;
        metric_name = metric_name;
        value = value;
      }
          ∷ []);
}

unfoldable pub selects_point : String → String → ℕ → ℕ → TimePoint → Bool
unfolding in_range of_device
selects_point metric_name device_id start end_time p =
    str_eq p.metric_name metric_name
    && in_range start end_time p.timestamp
    && of_device device_id p.device_id

-- The points that a query reads: without a start, those of one day.
unfoldable pub points_of : ℕ → String → String → ℕ → ℕ → DetectionStore → List TimePoint
unfolding selects_point or_now
points_of now metric_name device_id start_time end_time s =
    let last = or_now now end_time in
    let first = if start_time == 0 then last - day else start_time in
    filter (selects_point metric_name device_id first last) s.timeseries

-- `query_timeseries` without buckets.
unfoldable pub query_timeseries : ℕ → String → String → ℕ → ℕ → ℕ → DetectionStore → List TimePoint
unfolding points_of
query_timeseries now metric_name device_id start_time end_time limit s =
    take limit
      (oldest_first (λ p. p.timestamp) (points_of now metric_name device_id start_time end_time s))

pub data Aggregation : Type 0 where
  avg sum maximum minimum counting : Aggregation

-- The dictionary of aggregations, with `AVG` for other names.
pub aggregation_of : String → Aggregation
aggregation_of name =
    if str_eq name "sum"
    then sum
    else if str_eq name "max"
    then maximum
    else if str_eq name "min"
    then minimum
    else if str_eq name "count"
    then counting
    else avg

total : List ℕ → ℕ
total [] = 0
total (v ∷ vs) = v + total vs

greatest : ℕ → List ℕ → ℕ
greatest m [] = m
greatest m (v ∷ vs) = greatest (max m v) vs

least : ℕ → List ℕ → ℕ
least m [] = m
least m (v ∷ vs) = least (min m v) vs

-- The value of a group, whose first value stands apart since no group is empty.
pub aggregate : Aggregation → ℕ → List ℕ → Fraction
unfolding total greatest least
aggregate avg v vs = record { num = total (v ∷ vs); den = length (v ∷ vs) }
aggregate sum v vs = record { num = total (v ∷ vs); den = 1 }
aggregate maximum v vs = record { num = greatest v vs; den = 1 }
aggregate minimum v vs = record { num = least v vs; den = 1 }
aggregate counting v vs = record { num = length (v ∷ vs); den = 1 }

-- A group of `GROUP BY bucket_ts` with the values that were not read yet.
pub record Bucket : Type 0 where
  pub bucket_ts : ℕ
  pub first : ℕ
  pub others : List ℕ

into_bucket : ℕ → ℕ → List Bucket → List Bucket
into_bucket ts v [] = record { bucket_ts = ts; first = v; others = [] } ∷ []
into_bucket ts v (b ∷ bs) =
    if b.bucket_ts == ts
    then record b { others = b.others ++ (v ∷ []) } ∷ bs
    else b ∷ into_bucket ts v bs

-- `CAST(timestamp / ? AS INTEGER) * ?`
buckets_of : ℕ → List TimePoint → List Bucket → List Bucket
unfolding into_bucket
buckets_of seconds [] bs = bs
buckets_of seconds (p ∷ ps) bs =
    buckets_of seconds ps (into_bucket (p.timestamp / seconds * seconds) p.value bs)

-- `query_timeseries` with buckets of so many seconds, more than 0.
pub query_buckets :
    ℕ → String → String → ℕ → ℕ → String → ℕ → ℕ → DetectionStore → List (ℕ × Fraction)
unfolding points_of buckets_of aggregation_of aggregate
query_buckets now metric_name device_id start_time end_time aggregation seconds limit s =
    map (λ b. (b.bucket_ts, aggregate (aggregation_of aggregation) b.first b.others))
      (take limit (
        oldest_first (λ b. b.bucket_ts)
          (buckets_of seconds (points_of now metric_name device_id start_time end_time s) [])))
