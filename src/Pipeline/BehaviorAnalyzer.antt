-- ===== src/Pipeline/BehaviorAnalyzer.antt =====
-- mac-central/src/pipeline/behavior_analyzer.py: `BehaviorAnalyzer` over the detection store. Times are
-- whole seconds, so `int(t / 10)` is a division; the decimal notation of numbers is given, and
-- `fails` says whether the query of the store raises. A store has `query_timeseries`.
pub mod Crowds
pub mod Loitering
mod Tests
use neuro_pipeline.Prelude.{
  ℕ, ◌+◌, ◌-◌, ◌*◌, ◌/◌, String, Bool, true, false, not, List, [], ◌∷◌, ◌++◌, Option, none, some,
  str_eq, leb, ◌==◌, any, length, if◌then◌else◌,
}
use neuro_pipeline.Prelude.Text.{◌⊕◌}
use neuro_pipeline.Prelude.Dict.{Dict, get, put}
use neuro_pipeline.Prelude.Fraction.{Fraction}
use neuro_pipeline.Pipeline.Detection.{Detection}
use neuro_pipeline.Storage.DetectionStore.{DetectionRow, DetectionStore, query, or_now}

pub data BehaviorType : Type 0 where
  loitering running lingering crowd unusual_time : BehaviorType

pub data Metadata : Type 0 where
  class_count : String → ℕ → Metadata
  duration : ℕ → ℕ → Metadata

pub record BehaviorEvent : Type 0 where
  pub behavior_type : BehaviorType
  pub device_id : String
  pub confidence : Fraction
  pub description : String
  pub timestamp : ℕ
  pub metadata : Metadata

pub record BehaviorAnalyzer : Type 0 where
  pub store : Option DetectionStore
  pub loiter_threshold : ℕ
  pub crowd_threshold : ℕ
  pub analysis_window : ℕ

-- What a check returns, or that it raises `ZeroDivisionError`.
pub data Check : Type 0 where
  nothing : Check
  reports : BehaviorEvent → Check
  divides_by_zero : Check

-- `d.get(key, 0)`
pub or_zero : Option ℕ → ℕ
or_zero none = 0
or_zero (some n) = n

-- The loop that counts.
pub count_classes : List Detection → Dict ℕ → Dict ℕ
unfolding or_zero
count_classes [] counts = counts
count_classes (d ∷ ds) counts =
    count_classes ds (put d.class_name (or_zero (get d.class_name counts) + 1) counts)

-- `min(1.0, n / (threshold * 2))`
pub confidence_of : ℕ → ℕ → Fraction
confidence_of n threshold =
    if leb (threshold * 2) n
    then record { num = 1; den = 1 }
    else record { num = n; den = threshold * 2 }

pub is_person : Detection → Bool
is_person d = str_eq d.class_name "person"

-- `set.add`
pub add_once : ℕ → List ℕ → List ℕ
add_once n ns = if any (λ m. m == n) ns then ns else n ∷ ns

-- The distinct buckets of ten seconds with a person.
pub person_buckets : List DetectionRow → List ℕ → List ℕ
unfolding is_person add_once
person_buckets [] buckets = buckets
person_buckets (r ∷ rows) buckets =
    person_buckets rows
      (if any is_person r.detections then add_once (r.timestamp / 10) buckets else buckets)

module _ (decimal : ℕ → String) (a : BehaviorAnalyzer) (device_id : String) (timestamp : ℕ) where
  pub crowd_event : String → ℕ → Check
  unfolding confidence_of
  crowd_event class_name n =
      if a.crowd_threshold == 0
      then divides_by_zero
      else reports (record {
        behavior_type = crowd;
        device_id = device_id;
        confidence = confidence_of n a.crowd_threshold;
        description =
            decimal n
            ⊕ (" "
                ⊕ (class_name
                    ⊕ (" objects detected (threshold: " ⊕ (decimal a.crowd_threshold ⊕ ")"))));
        timestamp = timestamp;
        metadata = class_count class_name n;
      })

  -- The first class with enough objects, in the order in which the classes appear.
  pub first_crowd : Dict ℕ → Check
  unfolding crowd_event
  first_crowd [] = nothing
  first_crowd ((class_name, n) ∷ counts) =
      if leb a.crowd_threshold n then crowd_event class_name n else first_crowd counts

  pub check_crowd : List Detection → Check
  unfolding first_crowd count_classes
  check_crowd detections = first_crowd (count_classes detections [])

  pub loiter_event : ℕ → Check
  unfolding confidence_of
  loiter_event buckets =
      if a.loiter_threshold == 0
      then divides_by_zero
      else reports (record {
        behavior_type = loitering;
        device_id = device_id;
        confidence = confidence_of (buckets * 10) a.loiter_threshold;
        description =
            "Person detected across ~"
            ⊕ (decimal (buckets * 10)
                ⊕ ("s window (threshold: " ⊕ (decimal a.loiter_threshold ⊕ "s)")));
        timestamp = timestamp;
        metadata = duration (buckets * 10) buckets;
      })

  pub judge_history : List Detection → List DetectionRow → Check
  unfolding is_person person_buckets loiter_event
  judge_history detections [] = nothing
  judge_history detections (r ∷ rows) =
      if not (any is_person detections)
      then nothing
      else if leb a.loiter_threshold (length (person_buckets (r ∷ rows) []) * 10)
      then loiter_event (length (person_buckets (r ∷ rows) []))
      else nothing

  -- The check with the store that is there, if one is.
  pub check_loitering : ℕ → Bool → List Detection → Option DetectionStore → Check
  unfolding judge_history
  check_loitering now fails detections none = nothing
  check_loitering now fails detections (some s) =
      if fails
      then nothing
      else judge_history detections
          (query now (timestamp - a.analysis_window) timestamp 200 device_id s)

-- The events of the checks, if none raises.
both : Check → Check → Option (List BehaviorEvent)
both divides_by_zero second = none
both nothing divides_by_zero = none
both nothing nothing = some []
both nothing (reports e) = some (e ∷ [])
both (reports e) divides_by_zero = none
both (reports e) nothing = some (e ∷ [])
both (reports e) (reports e') = some (e ∷ e' ∷ [])

-- `analyze`, or `none` where it raises.
pub analyze :
    (ℕ → String)
    → ℕ
    → Bool
    → String
    → List Detection
    → ℕ
    → BehaviorAnalyzer
    → Option (List BehaviorEvent)
unfolding check_crowd check_loitering both
analyze decimal now fails device_id detections timestamp a =
    let ts = or_now now timestamp in
    both (check_crowd decimal a device_id ts detections)
      (check_loitering decimal a device_id ts now fails detections a.store)
