-- ===== src/Core/Events/Tests.antt =====
-- Runs of events.py.
use neuro_pipeline.Prelude.{
  eq_iff, ℕ, ◌≡◌, refl, String, Bool, true, false, [], ◌∷◌, none, some, ◌==◌, ◌≢◌, arith,
}
use neuro_pipeline.Prelude.Dict.{get, put}
use neuro_pipeline.Core.Events.{
  Event, EventBus, Handler, init, subscribe, subscribe_async, publish, get_history, call_all,
  schedule_all, handlers_of,
}
use neuro_pipeline.Core.Events.History.{
  published, published_async, cleared, run, seen, wanted, asked, run-get_history,
}

-- Handler 2 raises on every event.
abbrev raises : Handler → Event ℕ → Bool
raises h e = h == 2

abbrev event : String → String → ℕ → Event ℕ
event kind from at = record { type = kind; payload = 0; source = from; timestamp = at; id = "id" }

abbrev connected : ℕ → Event ℕ
connected at = event "device.connected" "edge" at

abbrev error : ℕ → Event ℕ
error at = event "device.error" "edge" at

abbrev bus : EventBus ℕ
bus =
    (subscribe_async "device.error" 4
      (subscribe "*" 3 (subscribe "device.error" 2 (subscribe "device.error" 1 (init 2)).0).0).0).0

publish_test :
    (publish raises true (error 5) bus).1
    ≡ record { sync = (1, true) ∷ (2, false) ∷ (3, true) ∷ []; later = (4, true) ∷ [] }
unfolding publish init subscribe subscribe_async call_all schedule_all handlers_of get put
publish_test = refl

run-get_history_example :
    get_history none (some "edge") 10 (
      run raises
        (published true (error 1)
          ∷ cleared
          ∷ published_async (connected 2)
          ∷ published false (error 3)
          ∷ published true (error 4)
          ∷ [])
        (init 2))
    ≡ error 4 ∷ error 3 ∷ []
unfolding seen wanted asked
run-get_history_example =
    run-get_history raises
      (published true (error 1)
        ∷ cleared
        ∷ published_async (connected 2)
        ∷ published false (error 3)
        ∷ published true (error 4)
        ∷ [])
      2 10 none (some "edge")

other : ◌≢◌ {A = String} "device.error" "*"
other e = ground (arith, (eq_iff "device.error" "*").1 e)
