-- ===== src/Core/EventBus/Tests.antt =====
-- Runs of event_bus.py.
use neuro_pipeline.Prelude.{ℕ, ◌≡◌, refl, Bool, true, false, List, [], ◌∷◌, none, some, ◌==◌}
use neuro_pipeline.Core.EventBus.{
  Event, EventBus, StoreCall, record_event, count_stored, record_timeseries, init, publish,
  subscribe, store_calls, until_failure,
}
use neuro_pipeline.Core.EventBus.Listeners.{
  Call, published, subscribed, unsubscribed, taken, run, follow, run-queue,
}

abbrev event : ℕ → Event
event id = record {
  id = id;
  type = some "detection";
  device_id = some "edge-1";
  timestamp = none;
  detections = some 2;
}

abbrev other : ℕ → Event
other id = record {
  id = id;
  type = some "heartbeat";
  device_id = none;
  timestamp = some 9;
  detections = none;
}

-- The store fails to record event 2.
abbrev fails : StoreCall → Bool
fails (record_event e) = e.id == 2
fails count_stored = false
fails (record_timeseries device metric value ts) = false

publish_test :
    (publish fails 7 (event 1) (init true 3)).1
    ≡ record_event (event 1) ∷ count_stored ∷ record_timeseries "edge-1" "detections_count" 2 7 ∷ []
unfolding publish init store_calls until_failure
publish_test = refl

abbrev buffered : EventBus
buffered = record {
  recent_events = event 1 ∷ other 3 ∷ [];
  maxlen = 2;
  listeners = [];
  queues = λ q. [];
  next_queue = 0;
  has_store = true;
}

abbrev earlier : List Call
earlier = subscribed ∷ published 1 (event 1) ∷ []

abbrev later : List Call
later =
    published 2 (event 2)
    ∷ taken 1
    ∷ published 3 (other 3)
    ∷ unsubscribed 1
    ∷ published 4 (event 4)
    ∷ []

abbrev second : EventBus × ℕ
second = subscribe (run fails earlier (init true 2))

follow_test : follow 1 later true [] ≡ other 3 ∷ []
unfolding follow
follow_test = refl

run-queue_example : (run fails later second.0).queues second.1 ≡ follow second.1 later true []
run-queue_example = run-queue fails true 2 earlier later
