-- ===== src/Lib.antt =====
-- Verification of the central server of Neuro-Pipeline (mac-central/src, Python).
--
-- Edge devices stream detections to the central server. `ServiceContainer` builds its services, each
-- once. The gRPC server keeps a session for each device, limits its rate, checks each message, and
-- gives the valid ones to `CentralOrchestrator`. There the detection processor analyzes them, publishes
-- events, and puts the images that a rule selects into a queue of 32. The worker of the VLM pipeline
-- takes them in batches to the vision-language model, behind a circuit breaker, publishes what the
-- model says, and sends commands, which go back to the devices in their order. Events are kept in the
-- detection store, where queries, the behavior analyzer, the baselines and the retrieval read them.
-- Each part is modelled by itself, and the parts that are built on others on top of their models.
--
-- Which file is about which code (the modules below a file hold its theorems, `Tests` its runs):
--
--   Core/Container.antt                    mac-central/src/core/container.py
--   Core/EventBus.antt                     mac-central/src/core/event_bus.py
--   Core/Events.antt                       mac-central/src/core/events.py
--   Core/HotReload.antt                    mac-central/src/core/hot_reload.py
--   Core/Plugin.antt                       mac-central/src/core/plugin.py
--   Communication/DeviceSession.antt       mac-central/src/communication/device_session.py
--   Communication/GrpcServer.antt          mac-central/src/communication/grpc_server.py
--                                          (StreamDetectionResults)
--   Communication/GrpcServer/Calls.antt    its other calls
--   Communication/ModelActions.antt        mac-central/src/communication/model_actions.py
--   Communication/RateLimiter.antt         mac-central/src/communication/rate_limiter.py
--   Pipeline/AnomalyBaseline.antt          mac-central/src/pipeline/anomaly_baseline.py
--   Pipeline/BehaviorAnalyzer.antt         mac-central/src/pipeline/behavior_analyzer.py
--   Pipeline/CentralOrchestrator.antt      mac-central/src/pipeline/central_orchestrator.py
--   Pipeline/CentralOrchestrator/Batching.antt
--                                          the worker between its waits, and the shutdown
--   Pipeline/DetectionProcessor.antt       mac-central/src/pipeline/detection_processor.py
--   Pipeline/VlmData.antt                  its data
--   Pipeline/VlmPipeline.antt              mac-central/src/pipeline/vlm_pipeline.py
--   Pipeline/VlmPipeline/Interrupted.antt  an item of it that is cancelled
--   Inference/ConfigGuide.antt             mac-central/src/inference/vlm_config_guide.py
--   Inference/Conversation.antt            mac-central/src/inference/mlx_llm_inference.py
--                                          (ConversationContext, get_conversation)
--   Inference/Engine.antt                  mac-central/src/inference/mlx_llm_inference.py
--                                          (batch_analyze)
--   Inference/RagRetriever.antt            mac-central/src/inference/rag_retriever.py
--   Inference/ReasoningChain.antt          mac-central/src/inference/reasoning_chain.py
--   Storage/DetectionStore.antt            mac-central/src/storage/detection_store.py,
--                                          _detection_repo.py, _conversation_repo.py
--   Storage/Timeseries.antt                mac-central/src/storage/_timeseries_repo.py
--   ModelManagement/AbTest.antt            mac-central/src/model_management/ab_test_manager.py
--   ModelManagement/ModelRegistry.antt     mac-central/src/model_management/model_registry.py
--   ModelManagement/VlmValidator.antt      mac-central/src/model_management/vlm_validator.py
--   Analytics/ReIdEngine.antt              mac-central/src/analytics/reid_engine.py
--   Observability/Alerting.antt            mac-central/src/observability/alerting.py
--   Observability/CircuitBreaker.antt      mac-central/src/observability/circuit_breaker.py
--   Observability/Retry.antt               mac-central/src/observability/retry.py
--   Prelude.antt                           shared: tests, lists, dictionaries, integers, sorting,
--                                          lists of references, texts, and the interface of
--                                          floating point operations (Float)
--
-- A class is a record with the fields of `__init__`, and a method is a function with the method's name
-- from the record to the record and what the method returns. A dictionary is a list of pairs with
-- distinct keys in the order of insertion, as in Python; a deque is a list that is cut when it grows.
-- An enumeration is a data type. An exception is a value of the result, or an answer of the code that
-- is called; where the builders of container.py raise is a parameter. A loop over a list is recursion on
-- the list, so no fuel is needed; the attempts of retry.py are recursion on the number of attempts that
-- are left. Only `get` of container.py has fuel: 4, since the calls of the builders are at most four deep.
--
-- A clock reading is an argument of the method that takes it, a number of ticks, and nothing assumes
-- that the clock never goes back unless a theorem says so. Token amounts and rates are counted in
-- exact parts and not in floating point; statistics and similarities are floating point numbers of any
-- kind that has the operations. A `with self._lock` block is one step, since the lock makes each method
-- atomic; sequences of calls are lists of calls, and the orchestrator's parts act in any order, as steps
-- of a relation. A shared object is a value, except where sharing matters: the queues of event_bus.py
-- are numbers with a store, and a service of container.py has the number of its object.
--
-- What is called and is not part of the repository, or only passes data on, is a parameter: the model
-- and its answers, the detection store's failures, plugins, handlers, retrieval. Logs, metrics and
-- traces are left out. Tables of the database are lists of rows, and a query is a filter, a sort and a
-- cut. Not modelled: gRPC and HTTP transport, SQLite itself and MLX, which the code only calls; the
-- dataclasses of the configuration and the main program, which pass values on; the dashboard
-- (extensions/dashboard), the annotations, reports and statistics of mac-central/src/analytics, the
-- command-line scripts, and the C++ program of the edge devices (rk3588-edge).
pub mod Prelude
pub mod Observability
pub mod Communication
pub mod ModelManagement
pub mod Core
pub mod Inference
pub mod Pipeline
pub mod Storage
pub mod Analytics
