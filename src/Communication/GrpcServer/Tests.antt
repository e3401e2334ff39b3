-- ===== src/Communication/GrpcServer/Tests.antt =====
-- Runs of grpc_server.py.
use neuro_pipeline.Prelude.{
  ℕ, ◌≡◌, refl, String, Bool, true, false, List, [], ◌∷◌, none, some, arith, length,
}
use neuro_pipeline.Prelude.Dict.{get, contains}
use neuro_pipeline.Core.EventBus.{StoreCall}
use neuro_pipeline.Observability.CircuitBreaker.{closed}
use neuro_pipeline.Communication.DeviceSession.{DeviceSessionManager, Hello}
use neuro_pipeline.Communication.DeviceSession.Sessions.{IsValid, greeted}
use neuro_pipeline.Pipeline.DetectionProcessor.{DetectionResult}
use neuro_pipeline.Pipeline.CentralOrchestrator.{Given, init}
use neuro_pipeline.ModelManagement.AbTest.{AbTestManager, assign_group, variant_of}
use neuro_pipeline.Communication.GrpcServer.{
  Servicer, Input, message, broken, stream_detection_results, is_valid, is_allowed,
}
use neuro_pipeline.Communication.GrpcServer.Calls.{
  register_device, forward_commands, registered, set_group, group_value,
}
use neuro_pipeline.Communication.GrpcServer.Calls.Commands.{
  send_all, IsSplit, commands_of, forward_commands-send_all,
}
use neuro_pipeline.Pipeline.VlmPipeline.{ControlCommand}
use neuro_pipeline.Communication.GrpcServer.Streams.{
  frames_of, forget, passed, reached, process_all, stream_detection_results_lem,
  stream_detection_results-forget,
}
use neuro_pipeline.Communication.GrpcServer.Sessions.{
  IsValidOption, stream_detection_results-IsValid,
}
use neuro_pipeline.Communication.GrpcServer.Devices.{
  admits, refused, session_of, group_of, register_device-refused, register_device-session_of,
}

abbrev given : Given
given = record {
  vlm_rules = [];
  detection_store = false;
  circuit_breaker = record {
    failure_threshold = 2;
    recovery_timeout = 60;
    half_open_max = 1;
    state = closed;
    failure_count = 0;
    last_failure_time = 0;
    half_open_calls = 0;
  };
  alert_manager = true;
  cloud_storage = false;
  behavior_analyzer = false;
  rag_retriever = false;
  anomaly_baseline = false;
  vlm_config_guide = false;
  batch_max = none;
}

-- A manager with room for one device.
abbrev small : DeviceSessionManager
small = record { sessions = []; heartbeat_interval = 5; expiry_timeout = 20; max_devices = 1 }

abbrev full : DeviceSessionManager
full = record small { max_devices = 0 }

small-IsValid : IsValid small
small-IsValid = record { distinct = tt; keyed = tt; bounded = omega arith }

abbrev ab : AbTestManager
ab = record {
  control_variant = "old";
  treatment_variant = "new";
  split = 5;
  min_samples = 1;
  metric = "latency";
  device_groups = [];
  metrics = [];
}

abbrev servicer : Servicer
servicer = record {
  orchestrator = init 80 given;
  session_manager = some small;
  rate_limiter = none;
  model_registry = none;
  detection_store = none;
  ab_test_manager = some ab;
}

abbrev crowded : Servicer
crowded = record servicer { session_manager = some full }

abbrev frame : ℕ → DetectionResult
frame x = record {
  frame_id = 1;
  trace_id = some "t";
  device_id = "edge";
  boxes =
      record { class_name = "person"; confidence = 90; x_min = x; y_min = 0; x_max = 1; y_max = 1 }
      ∷ [];
  frame_data = [];
}

abbrev sent : ℕ → Input
sent x = message (record {
  result = frame x;
  world = record { now = 3; generate = λ ds template. template; analyze = none; score = none };
  made = 1;
  checked = 1;
  connected_at = 1;
  registered = 1;
  beat = 2;
  event_id = 1;
})

-- The second of the three frames has a coordinate that is out of range.
abbrev inputs : List Input
inputs = sent 0 ∷ sent 101 ∷ sent 7 ∷ broken "reset" ∷ sent 1 ∷ []

abbrev decimal : ℕ → String
decimal n = "1"

abbrev fails : StoreCall → Bool
fails c = false

frames_test : length (passed 1 100 decimal fails (reached 1 100 decimal fails inputs "" none)) ≡ 2
unfolding passed reached is_valid is_allowed
frames_test = refl

stream_detection_results_lem_example :
    let r = stream_detection_results 1 100 decimal fails inputs servicer in
    let ms = passed 1 100 decimal fails (reached 1 100 decimal fails inputs "" none) in
    (r.0.orchestrator ≡ process_all 1 100 decimal fails ms (init 80 given))
    × (frames_of r.1 ≡ length ms)
stream_detection_results_lem_example =
    stream_detection_results_lem 1 100 decimal fails inputs servicer

stream_detection_results-forget_example :
    let r = stream_detection_results 1 100 decimal fails inputs crowded in
    stream_detection_results 1 100 decimal fails inputs (forget crowded) ≡ (forget r.0, r.1)
stream_detection_results-forget_example =
    stream_detection_results-forget 1 100 decimal fails inputs crowded

stream_detection_results-IsValid_example :
    IsValidOption (stream_detection_results 1 100 decimal fails inputs servicer).0.session_manager
unfolding IsValidOption
stream_detection_results-IsValid_example =
    stream_detection_results-IsValid 1 100 decimal fails inputs servicer small-IsValid

abbrev hello : Hello
hello = record {
  device_id = "edge";
  device_name = "Door";
  firmware_version = "1.2";
  capabilities = none;
}

register_device-refused_example : register_device 1 1 3 hello crowded ≡ (crowded, refused "edge")
unfolding admits contains
register_device-refused_example = register_device-refused 1 1 3 hello crowded {m = full} refl refl

register_device-session_of_example :
    let r = register_device 1 1 3 hello servicer in
    let g = (assign_group 3 "edge" ab).1 in
    (r.1 ≡ registered "edge")
    × (group_of "edge" r.0.ab_test_manager ≡ some g)
    × (session_of "edge" r.0.session_manager
        ≡ some
            (set_group (group_value g) (variant_of g ab) (greeted 1 1 hello small (get "edge" []))))
unfolding admits contains
register_device-session_of_example =
    register_device-session_of 1 1 3 hello servicer {m = small} {ab = ab} refl refl refl

abbrev restart : ℕ → ControlCommand
restart n = record { command_id = n; type = 1; parameters = [] }

forward_commands-send_all_example :
    let r = forward_commands decimal 1 (send_all (restart 4 ∷ restart 5 ∷ []) servicer) in
    IsSplit 1 (restart 4 ∷ restart 5 ∷ []) (commands_of r.1) r.0.orchestrator.command_queue
unfolding init
forward_commands-send_all_example =
    forward_commands-send_all decimal 1 (restart 4 ∷ restart 5 ∷ []) servicer
