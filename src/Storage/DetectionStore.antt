-- ===== src/Storage/DetectionStore.antt =====
-- mac-central/src/storage: `DetectionStore` and its three tables (_detection_repo.py,
-- conversation_repo.py). A table is the list of its rows in the order of
-- insertion. No statement meets a lock of another process, so `retry_sync` makes one attempt. Rows with
-- one timestamp are ordered by insertion, which SQLite leaves open. Times count from 0.
pub mod Retention
pub mod Queries
pub mod Turns
mod Tests
use neuro_pipeline.Prelude.{
  ℕ, ◌-◌, ◌*◌, String, Bool, true, false, not, ◌&&◌, List, [], ◌∷◌, ◌++◌, map, Option, none, some,
  str_eq, ltb, leb, ◌==◌, min, max, any, filter, length, take, if◌then◌else◌,
}
use neuro_pipeline.Prelude.Newest.{newest_first, oldest_first}
use neuro_pipeline.Pipeline.Detection.{Detection}
use mathlib.Core.List.{reverse}

-- An event as it is recorded: the keys that are read, `none` where one is missing.
pub record Event : Type 0 where
  pub timestamp : Option ℕ
  pub frame_id : Option ℕ
  pub trace_id : Option String
  pub type : Option String
  pub detections : Option (List Detection)
  pub vlm_result : Option String
  pub rule : Option String
  pub device_id : Option String

-- A row of `detections`; the detections stand for their JSON text.
pub record DetectionRow : Type 0 where
  pub timestamp : ℕ
  pub frame_id : Option ℕ
  pub trace_id : Option String
  pub event_type : String
  pub detections : List Detection
  pub vlm_result : Option String
  pub rule_matched : Option String
  pub device_id : String

pub record TimePoint : Type 0 where
  pub timestamp : ℕ
  pub device_id : String
  pub metric_name : String
  pub value : ℕ

pub record ConversationTurn : Type 0 where
  pub device_id : String
  pub timestamp : ℕ
  pub role : String
  pub content : String
  pub context_type : String

pub record DetectionStore : Type 0 where
  pub detections : List DetectionRow
  pub timeseries : List TimePoint
  pub conversations : List ConversationTurn
  pub retention_days : ℕ

-- The tables of a new database.
unfoldable pub init : ℕ → DetectionStore
init retention_days = record {
  detections = [];
  timeseries = [];
  conversations = [];
  retention_days = retention_days;
}

-- `event.get(key, default)`
get_or {ℓ} : {A : Type ℓ} → A → Option A → A
get_or default none = default
get_or default (some a) = a

pub row_of : ℕ → Event → DetectionRow
unfolding get_or
row_of now e = record {
  timestamp = get_or now e.timestamp;
  frame_id = e.frame_id;
  trace_id = e.trace_id;
  event_type = get_or "detection" e.type;
  detections = get_or [] e.detections;
  vlm_result = e.vlm_result;
  rule_matched = e.rule;
  device_id = get_or "" e.device_id;
}

pub record_event : ℕ → Event → DetectionStore → DetectionStore
unfolding row_of
record_event now e s = record s { detections = s.detections ++ (row_of now e ∷ []) }

-- `AND device_id = ?`, which is there if the device is not empty
unfoldable pub of_device : String → String → Bool
of_device device_id d = if str_eq device_id "" then true else str_eq d device_id

-- `WHERE timestamp >= ? AND timestamp <= ?`
unfoldable pub in_range : ℕ → ℕ → ℕ → Bool
in_range since until t = leb since t && leb t until

-- `timestamp or time.time()`, and `until` if it is positive
unfoldable pub or_now : ℕ → ℕ → ℕ
or_now now t = if t == 0 then now else t

unfoldable pub selects : ℕ → ℕ → String → DetectionRow → Bool
unfolding in_range of_device
selects since until device_id r =
    in_range since until r.timestamp && of_device device_id r.device_id

unfoldable pub query : ℕ → ℕ → ℕ → ℕ → String → DetectionStore → List DetectionRow
unfolding selects or_now
query now since until limit device_id s = take limit (
    newest_first (λ r. r.timestamp)
      (filter (selects since (or_now now until) device_id) s.detections))

-- The seconds of a day.
abbrev pub day : ℕ
day = 86_400

pub is_old : ℕ → DetectionRow → Bool
is_old cutoff r = ltb r.timestamp cutoff

-- The store after `cleanup`, and the number of rows that were deleted.
pub cleanup : ℕ → DetectionStore → DetectionStore × ℕ
unfolding is_old
cleanup now s =
    let cutoff = now - s.retention_days * day in
    (
      record s { detections = filter (λ r. not (is_old cutoff r)) s.detections },
      length (filter (is_old cutoff) s.detections),
    )

pub count : DetectionStore → ℕ
count s = length s.detections

pub record_conversation :
    ℕ → String → String → String → String → ℕ → DetectionStore → DetectionStore
unfolding or_now
record_conversation now device_id role content context_type timestamp s = record s {
  conversations =
      s.conversations
      ++ (record {
        device_id = device_id;
        timestamp = or_now now timestamp;
        role = role;
        content = content;
        context_type = context_type;
      }
          ∷ []);
}

pub selects_turn : String → String → ℕ → ConversationTurn → Bool
selects_turn device_id context_type since t =
    str_eq t.device_id device_id
    && (if str_eq context_type "" then true else str_eq t.context_type context_type)
    && (if ltb 0 since then leb since t.timestamp else true)

-- The newest turns, put back into the order of time.
pub query_conversations : String → ℕ → String → ℕ → DetectionStore → List ConversationTurn
unfolding selects_turn
query_conversations device_id limit context_type since s = reverse (
    take limit (
      newest_first (λ t. t.timestamp)
        (filter (selects_turn device_id context_type since) s.conversations)))
