-- ===== src/Communication/GrpcServer.antt =====
-- mac-central/src/communication/grpc_server.py: the streams of `NeuroPipelineServicer`, over the models of the session
-- manager, the rate limiter, the orchestrator, the A/B tests, the model registry and the time series.
-- Confidences and coordinates are parts of `one`, and none is below 0. `context.abort` raises, as
-- grpc.aio says, so a limited stream ends there. Metrics, logs and the transport are left out.
pub mod Streams
pub mod Sessions
pub mod Calls
pub mod Devices
mod Tests
use neuro_pipeline.Prelude.{
  ℕ, suc, String, Bool, true, false, not, ◌&&◌, List, [], ◌∷◌, map, Option, none, some, str_eq, leb,
  length, if◌then◌else◌,
}
use neuro_pipeline.Prelude.Text.{◌⊕◌}
use neuro_pipeline.Core.EventBus.{StoreCall}
use neuro_pipeline.Communication.DeviceSession.{
  DeviceSessionManager, Hello, register, heartbeat, increment_frames, unregister,
}
use neuro_pipeline.Communication.RateLimiter.{TokenBucketRateLimiter, allow}
use neuro_pipeline.Storage.DetectionStore.{DetectionStore}
use neuro_pipeline.ModelManagement.ModelRegistry.{ModelRegistry}
use neuro_pipeline.ModelManagement.AbTest.{AbTestManager}
use neuro_pipeline.Pipeline.Detection.{Detection}
use neuro_pipeline.Pipeline.DetectionProcessor.{World, DetectionResult}
use neuro_pipeline.Pipeline.CentralOrchestrator.{CentralOrchestrator, process_detection}

pub record Servicer : Type 0 where
  pub orchestrator : CentralOrchestrator
  pub session_manager : Option DeviceSessionManager
  pub rate_limiter : Option TokenBucketRateLimiter
  pub model_registry : Option ModelRegistry
  pub detection_store : Option DetectionStore
  pub ab_test_manager : Option AbTestManager

-- The first coordinate that is out of range, by its name.
out_of_range : ℕ → List (String × ℕ) → Option (String × ℕ)
out_of_range one [] = none
out_of_range one ((name, v) ∷ rest) = if leb v one then out_of_range one rest else some (name, v)

-- The texts of the errors, with the notation of numbers given.
range_error : (ℕ → String) → Option (String × ℕ) → Option String
range_error decimal none = none
range_error decimal (some (name, v)) = some (name ⊕ (" out of range [0,1]: " ⊕ decimal v))

box_error : (ℕ → String) → ℕ → Detection → Option String
unfolding out_of_range range_error
box_error decimal one d = range_error decimal (
    out_of_range one (
      ("confidence", d.confidence)
      ∷ ("x_min", d.x_min)
      ∷ ("y_min", d.y_min)
      ∷ ("x_max", d.x_max)
      ∷ ("y_max", d.y_max)
      ∷ []))

or_next : Option String → Option String → Option String
or_next none later = later
or_next (some e) later = some e

boxes_error : (ℕ → String) → ℕ → List Detection → Option String
unfolding box_error or_next
boxes_error decimal one [] = none
boxes_error decimal one (d ∷ ds) = or_next (box_error decimal one d) (boxes_error decimal one ds)

pub validate_detection : (ℕ → String) → ℕ → DetectionResult → Option String
unfolding boxes_error
validate_detection decimal one result =
    if str_eq result.device_id ""
    then some "device_id must not be empty"
    else boxes_error decimal one result.boxes

pub is_valid : (ℕ → String) → ℕ → DetectionResult → Bool
unfolding validate_detection
is_valid decimal one result = elim (validate_detection decimal one result) [
  | none ↦ true
  | some e ↦ false
]

-- A message of a stream, with the clock readings while it is handled and the number of its events.
pub record Message : Type 0 where
  pub result : DetectionResult
  pub world : World
  pub made : ℕ
  pub checked : ℕ
  pub connected_at : ℕ
  pub registered : ℕ
  pub beat : ℕ
  pub event_id : ℕ

-- What the iterator of a request gives: a message, or an exception.
pub data Input : Type 0 where
  message : Message → Input
  broken : String → Input

-- How a stream ends, with the number of frames that were received.
pub data Ended : Type 0 where
  processed : ℕ → Ended
  limited : ℕ → Ended
  errored : String → ℕ → Ended

-- The device of a stream after a message, which is the first one that is named.
pub device_after : String → DetectionResult → String
device_after device result = if str_eq device "" then result.device_id else device

-- `register(device_id)`, where the answer is not looked at.
pub greet : Message → String → Option DeviceSessionManager → Option DeviceSessionManager
greet m device none = none
greet m device (some s) = some (
    (register m.connected_at m.registered
      (record { device_id = device; device_name = ""; firmware_version = ""; capabilities = none })
      s).0)

-- The sessions after the first part of the loop.
pub sessions_on : String → Message → Option DeviceSessionManager → Option DeviceSessionManager
unfolding greet
sessions_on device m sessions =
    if str_eq device "" && not (str_eq m.result.device_id "")
    then greet m m.result.device_id sessions
    else sessions

-- The two calls after a detection, if the stream has a device.
pub count_frame : Message → String → Option DeviceSessionManager → Option DeviceSessionManager
count_frame m device none = none
count_frame m device (some s) =
    if str_eq device ""
    then some s
    else some (increment_frames device 1 (heartbeat m.beat device s))

pub say_goodbye : String → Option DeviceSessionManager → Option DeviceSessionManager
say_goodbye device none = none
say_goodbye device (some s) = if str_eq device "" then some s else some (unregister device s)

module _ (unit one : ℕ) (decimal : ℕ → String) (fails : StoreCall → Bool) where
  pub is_allowed :
      Message → String → Option TokenBucketRateLimiter → Option TokenBucketRateLimiter × Bool
  is_allowed m device none = (none, true)
  is_allowed m device (some l) =
      let (l', ok) = allow unit m.made m.checked device l in (some l', ok)

  -- A message that was let through.
  pub accept : Message → String → Servicer → Servicer
  unfolding count_frame
  accept m device s = record s {
    orchestrator = process_detection decimal fails m.event_id m.world m.result s.orchestrator;
    session_manager = count_frame m device s.session_manager;
  }

  -- The servicer when the limit was asked for a message.
  pub asked : Message → String → Servicer → Servicer
  unfolding sessions_on is_allowed
  asked m device s = record s {
    session_manager = sessions_on device m s.session_manager;
    rate_limiter = (is_allowed m (device_after device m.result) s.rate_limiter).0;
  }

  -- The loop over the messages that are left, with the device and the frames so far: the servicer, the
  -- device and the end.
  pub receive : List Input → String → ℕ → Servicer → Servicer × String × Ended
  unfolding is_allowed accept asked is_valid device_after
  receive [] device frames s = (s, device, processed frames)
  receive (broken e ∷ inputs) device frames s = (s, device, errored e frames)
  receive (message m ∷ inputs) device frames s =
      let device' = device_after device m.result in
      let valid = is_valid decimal one m.result in
      let s' = asked m device s in
      let rest =
        receive inputs device' (if valid then suc frames else frames)
          (if valid then accept m device' s' else s') in
      if (is_allowed m device' s.rate_limiter).1 then rest else (s', device', limited frames)

  -- The whole call: the session of the device is given up however the stream ends.
  pub stream_detection_results : List Input → Servicer → Servicer × Ended
  unfolding receive say_goodbye
  stream_detection_results inputs s =
      let (s', device, ended) = receive inputs "" 0 s in
      (record s' { session_manager = say_goodbye device s'.session_manager }, ended)
