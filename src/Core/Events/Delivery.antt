-- ===== src/Core/Events/Delivery.antt =====
-- Which handlers `publish` and `publish_async` of events.py call.
use neuro_pipeline.Prelude.{
  Bool, true, false, not, List, [], ◌∷◌, ◌++◌, ◌≡◌, refl, ap, if◌then◌else◌, Bool-cases, inl, inr,
}
use neuro_pipeline.Core.Events.{
  Event, EventBus, Handler, Made, handlers_of, call_all, schedule_all, publish, publish_async,
}

-- The handlers of a list of calls.
pub handlers : List Made → List Handler
handlers [] = []
handlers (m ∷ ms) = m.0 ∷ handlers ms

handlers-append : (ms ns : List Made) → handlers (ms ++ ns) ≡ handlers ms ++ handlers ns
unfolding handlers
handlers-append [] ns = refl
handlers-append (m ∷ ms) ns = ap (◌∷◌ m.0) (handlers-append ms ns)

module _ {D : Type 0} (raises : Handler → Event D → Bool) where
  call_all-handlers : (hs : List Handler) (e : Event D) → handlers (call_all raises hs e) ≡ hs
  unfolding call_all handlers
  call_all-handlers [] e = refl
  call_all-handlers (h ∷ hs) e = ap (◌∷◌ h) (call_all-handlers hs e)

  schedule_all-running :
      (hs : List Handler) (e : Event D) → schedule_all raises true hs e ≡ call_all raises hs e
  unfolding call_all schedule_all
  schedule_all-running [] e = refl
  schedule_all-running (h ∷ hs) e = ap (◌∷◌ (h, not (raises h e))) (schedule_all-running hs e)

  schedule_all-handlers :
      (loop_running : Bool) (hs : List Handler) (e : Event D)
      → handlers (schedule_all raises loop_running hs e) ≡ (if loop_running then hs else [])
  unfolding schedule_all handlers
  schedule_all-handlers true hs e = rw (schedule_all-running hs e) (call_all-handlers hs e)
  schedule_all-handlers false hs e = idle hs
    where
      idle : (hs : List Handler) → handlers (schedule_all raises false hs e) ≡ []
      idle [] = refl
      idle (h ∷ hs) = idle hs

  -- `publish` calls the sync handlers of the event's type in the order of their subscription and then
  -- the wildcard handlers, each once and whichever of them raise, and it schedules the async handlers
  -- in the same way; without a running event loop it schedules none, and calls the sync ones all the
  -- same.
  pub publish-handlers :
      (loop_running : Bool) (e : Event D) (b : EventBus D)
      → let d = (publish raises loop_running e b).1 in
        (handlers d.sync ≡ handlers_of e.type b.subscribers ++ b.wildcard_subscribers)
        × (handlers d.later ≡ (
            if loop_running
            then handlers_of e.type b.async_subscribers ++ b.wildcard_async_subscribers
            else []))
  unfolding publish
  publish-handlers loop_running e b = (
    rw (handlers-append, call_all-handlers, call_all-handlers) refl,
    rw (handlers-append, schedule_all-handlers, schedule_all-handlers)
        (elim (Bool-cases loop_running) [ inl h ↦ rw h refl | inr h ↦ rw h refl ]),
  )

  -- In a running event loop, `publish` and `publish_async` leave the bus alike and make the same
  -- calls with the same outcomes in the same order, those of async handlers scheduled by the one and
  -- awaited by the other.
  pub publish-publish_async :
      (e : Event D) (b : EventBus D) → publish raises true e b ≡ publish_async raises e b
  unfolding publish publish_async
  publish-publish_async e b = rw (schedule_all-running, schedule_all-running) refl
