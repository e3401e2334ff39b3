-- ===== src/Communication/GrpcServer/Calls.antt =====
-- mac-central/src/communication/grpc_server.py: the calls of `NeuroPipelineServicer` that have one
-- answer.
pub mod Commands
use neuro_pipeline.Prelude.{
  ℕ, zero, suc, ◌++◌, String, Bool, true, false, List, [], ◌∷◌, map, Option, none, some, ◌==◌,
  str_eq, length, if◌then◌else◌,
}
use neuro_pipeline.Prelude.Fraction.{Fraction}
use neuro_pipeline.Prelude.Text.{◌⊕◌}
use neuro_pipeline.Communication.DeviceSession.{
  DeviceSession, DeviceSessionManager, Hello, register, update,
}
use neuro_pipeline.Communication.ModelActions
use neuro_pipeline.ModelManagement.AbTest.{
  AbGroup, control, treatment, AbTestManager, assign_group, get_variant,
}
use neuro_pipeline.ModelManagement.ModelRegistry.{ModelRegistry}
use neuro_pipeline.Storage.DetectionStore.{DetectionStore}
use neuro_pipeline.Storage.Timeseries.{query_timeseries, query_buckets}
use neuro_pipeline.Pipeline.VlmPipeline.{ControlCommand}
use neuro_pipeline.Pipeline.CentralOrchestrator.{send_command, get_pending_command, is_ready}
use neuro_pipeline.Communication.GrpcServer.{Servicer}

pub record CommandResponse : Type 0 where
  pub success : Bool
  pub message : String
  pub command_id : ℕ

pub send_control_command : ControlCommand → Servicer → Servicer × CommandResponse
send_control_command c s = (
  record s { orchestrator = send_command c s.orchestrator },
  record { success = true; message = "Command queued"; command_id = c.command_id },
)

-- A `CentralEvent` of the type CONTROL_COMMAND.
pub record CentralEvent : Type 0 where
  pub timestamp_us : ℕ
  pub payload : String
  pub command : ControlCommand

event_for : (ℕ → String) → ControlCommand → CentralEvent
event_for decimal c = record {
  timestamp_us = 0;
  payload = "command_id=" ⊕ decimal c.command_id;
  command = c;
}

events_for : (ℕ → String) → Option ControlCommand → List CentralEvent
unfolding event_for
events_for decimal none = []
events_for decimal (some c) = event_for decimal c ∷ []

-- So many turns of the loop of `BidirectionalEventStream`: each waits for a command and sends it, or
-- the wait ends without one.
pub forward_commands : (ℕ → String) → ℕ → Servicer → Servicer × List CentralEvent
unfolding events_for
forward_commands decimal zero s = (s, [])
forward_commands decimal (suc n) s =
    let fetched = get_pending_command s.orchestrator in
    let more = forward_commands decimal n (record s { orchestrator = fetched.0 }) in
    (more.0, events_for decimal fetched.1 ++ more.1)

-- Whether the status is SERVING.
pub health_check : Servicer → Bool
health_check s = is_ready s.orchestrator

pub record DeviceRegistrationResponse : Type 0 where
  pub success : Bool
  pub message : String
  pub assigned_id : String

-- `group.value`
pub group_value : AbGroup → String
group_value control = "control"
group_value treatment = "treatment"

pub set_group : String → String → DeviceSession → DeviceSession
set_group group variant s = record s { ab_test_group = group; model_version = variant }

-- The group of an admitted device, with the draw of a random number.
unfoldable pub assign :
    ℕ
    → String
    → DeviceSessionManager
    → Option AbTestManager
    → DeviceSessionManager × Option AbTestManager
unfolding group_value set_group
assign draw device_id sessions none = (sessions, none)
assign draw device_id sessions (some m) =
    let assigned = assign_group draw device_id m in
    let variant = get_variant draw device_id assigned.0 in
    (update device_id (set_group (group_value assigned.1) variant.1) sessions, some variant.0)

unfoldable pub registered : String → DeviceRegistrationResponse
registered device_id = record { success = true; message = "Registered"; assigned_id = device_id }

-- What follows the answer of `register`.
unfoldable pub answer_register :
    ℕ → String → Servicer → DeviceSessionManager × Bool → Servicer × DeviceRegistrationResponse
unfolding assign registered
answer_register draw device_id s (sessions, false) = (
  record s { session_manager = some sessions },
  record { success = false; message = "Max devices reached"; assigned_id = device_id },
)
answer_register draw device_id s (sessions, true) =
    let assigned = assign draw device_id sessions s.ab_test_manager in
    (
      record s { session_manager = some assigned.0; ab_test_manager = assigned.1 },
      registered device_id,
    )

unfoldable pub register_with :
    ℕ
    → ℕ
    → ℕ
    → Hello
    → Option DeviceSessionManager
    → Servicer
    → Servicer × DeviceRegistrationResponse
unfolding answer_register registered
register_with t now draw h none s = (s, registered h.device_id)
register_with t now draw h (some sessions) s =
    answer_register draw h.device_id s (register t now h sessions)

-- `RegisterDevice`, with two readings of the clock.
unfoldable pub register_device :
    ℕ → ℕ → ℕ → Hello → Servicer → Servicer × DeviceRegistrationResponse
unfolding register_with
register_device t now draw h s = register_with t now draw h s.session_manager s

manage :
    (ℕ → String)
    → ModelActions.Request
    → Option ModelRegistry
    → Servicer
    → Servicer × ModelActions.Response
manage decimal q none s =
    (s, record { success = false; message = "Model management not enabled"; models = [] })
manage decimal q (some r) s =
    let (r', response) = ModelActions.handle decimal q r in
    (record s { model_registry = some r' }, response)

pub manage_model : (ℕ → String) → ModelActions.Request → Servicer → Servicer × ModelActions.Response
unfolding manage
manage_model decimal q s = manage decimal q s.model_registry s

pub record TimeSeriesRequest : Type 0 where
  pub metric_name : String
  pub device_id : String
  pub start_time : ℕ
  pub end_time : ℕ
  pub aggregation : String
  pub bucket_seconds : ℕ

pub record TimeSeriesResponse : Type 0 where
  pub success : Bool
  pub message : String
  pub points : List (ℕ × Fraction)

-- `query_timeseries(...)` with the limit of 1000 rows that it has by itself.
pub rows_of : ℕ → TimeSeriesRequest → DetectionStore → List (ℕ × Fraction)
rows_of now q store =
    if q.bucket_seconds == 0
    then map (λ p. (p.timestamp, record { num = p.value; den = 1 }))
        (query_timeseries now q.metric_name q.device_id q.start_time q.end_time 1000 store)
    else query_buckets now q.metric_name q.device_id q.start_time q.end_time
        (if str_eq q.aggregation "" then "avg" else q.aggregation) q.bucket_seconds 1000 store

points_response : (ℕ → String) → List (ℕ × Fraction) → TimeSeriesResponse
points_response decimal points = record {
  success = true;
  message = decimal (length points) ⊕ " points";
  points = points;
}

answer_query : (ℕ → String) → ℕ → TimeSeriesRequest → Option DetectionStore → TimeSeriesResponse
unfolding rows_of points_response
answer_query decimal now q none = record {
  success = false;
  message = "Time series not available";
  points = [];
}
answer_query decimal now q (some store) = points_response decimal (rows_of now q store)

pub query_time_series : (ℕ → String) → ℕ → TimeSeriesRequest → Servicer → TimeSeriesResponse
unfolding answer_query
query_time_series decimal now q s = answer_query decimal now q s.detection_store
