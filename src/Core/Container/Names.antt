-- ===== src/Core/Container/Names.antt =====
-- mac-central/src/core/container.py: the names of the services, and what their builders ask for.
use neuro_pipeline.Prelude.{ℕ, String, List, [], ◌∷◌, Option, none, some, str_eq, if◌then◌else◌}

-- The names that a method `_build_…` stands for.
pub data Name : Type 0 where
  store session_manager circuit_breaker alert_manager cloud_storage behavior_analyzer
        reasoning_chain rag_retriever anomaly_baseline :
      Name
  reid_engine timeseries_engine auto_annotator report_generator rate_limiter model_registry
        ab_test_manager orchestrator grpc_server :
      Name

-- `getattr(self, f"_build_{name}", None)`
unfoldable pub known : String → Option Name
known name =
    if str_eq name "store"
    then some store
    else if str_eq name "session_manager"
    then some session_manager
    else if str_eq name "circuit_breaker"
    then some circuit_breaker
    else if str_eq name "alert_manager"
    then some alert_manager
    else if str_eq name "cloud_storage"
    then some cloud_storage
    else if str_eq name "behavior_analyzer"
    then some behavior_analyzer
    else if str_eq name "reasoning_chain"
    then some reasoning_chain
    else if str_eq name "rag_retriever"
    then some rag_retriever
    else if str_eq name "anomaly_baseline"
    then some anomaly_baseline
    else if str_eq name "reid_engine"
    then some reid_engine
    else if str_eq name "timeseries_engine"
    then some timeseries_engine
    else if str_eq name "auto_annotator"
    then some auto_annotator
    else if str_eq name "report_generator"
    then some report_generator
    else if str_eq name "rate_limiter"
    then some rate_limiter
    else if str_eq name "model_registry"
    then some model_registry
    else if str_eq name "ab_test_manager"
    then some ab_test_manager
    else if str_eq name "orchestrator"
    then some orchestrator
    else if str_eq name "grpc_server"
    then some grpc_server
    else none

unfoldable pub code : Name → ℕ
code store = 0
code session_manager = 1
code circuit_breaker = 2
code alert_manager = 3
code cloud_storage = 4
code behavior_analyzer = 5
code reasoning_chain = 6
code rag_retriever = 7
code anomaly_baseline = 8
code reid_engine = 9
code timeseries_engine = 10
code auto_annotator = 11
code report_generator = 12
code rate_limiter = 13
code model_registry = 14
code ab_test_manager = 15
code orchestrator = 16
code grpc_server = 17

-- The section of the configuration that has to be enabled.
unfoldable pub section_of : Name → Option String
section_of alert_manager = some "alerting"
section_of cloud_storage = some "cloud_storage"
section_of reasoning_chain = some "reasoning"
section_of rag_retriever = some "rag"
section_of anomaly_baseline = some "anomaly"
section_of reid_engine = some "reid"
section_of timeseries_engine = some "timeseries"
section_of auto_annotator = some "auto_annotator"
section_of report_generator = some "reporting"
section_of rate_limiter = some "rate_limiting"
section_of model_registry = some "model_management"
section_of ab_test_manager = some "ab_test"
section_of store = none
section_of session_manager = none
section_of circuit_breaker = none
section_of behavior_analyzer = none
section_of orchestrator = none
section_of grpc_server = none

-- What a builder gets, in the order of its calls.
unfoldable pub parts_of : Name → List Name
parts_of store = []
parts_of session_manager = []
parts_of circuit_breaker = []
parts_of alert_manager = []
parts_of cloud_storage = []
parts_of behavior_analyzer = store ∷ []
parts_of reasoning_chain = []
parts_of rag_retriever = store ∷ []
parts_of anomaly_baseline = store ∷ []
parts_of reid_engine = []
parts_of timeseries_engine = store ∷ []
parts_of auto_annotator = store ∷ []
parts_of report_generator = store ∷ cloud_storage ∷ []
parts_of rate_limiter = []
parts_of model_registry = []
parts_of ab_test_manager = []
parts_of orchestrator =
    store ∷ circuit_breaker ∷ alert_manager ∷ cloud_storage ∷ behavior_analyzer ∷ reasoning_chain
    ∷ rag_retriever ∷ anomaly_baseline ∷ []
parts_of grpc_server =
    orchestrator ∷ session_manager ∷ rate_limiter ∷ model_registry ∷ store ∷ ab_test_manager ∷ []
