-- ===== src/Core/EventBus/Recent.antt =====
-- The buffer of recent events in event_bus.py.
use neuro_pipeline.Prelude.{
  ℕ, zero, suc, ◌-◌, ◌≤◌, ◌≡◌, refl, String, Bool, true, false, List, [], ◌∷◌, ◌++◌, append-nil,
  append_assoc, none, some, str_eq, ◌||◌, length, filter, length-filter-le, filter_all,
  if◌then◌else◌, arith,
}
use neuro_pipeline.Prelude.Int.{pos}
use neuro_pipeline.Prelude.Last.{last, last-snoc, last_nil}
use neuro_pipeline.Core.EventBus.{
  Event, EventBus, StoreCall, init, publish, append_recent, get_recent, by_device, last_slice,
}

-- `publish` of each event, with its clock reading.
pub publish_all : (StoreCall → Bool) → List (ℕ × Event) → EventBus → EventBus
publish_all fails [] b = b
publish_all fails ((now, e) ∷ es) b = publish_all fails es (publish fails now e b).0

unfoldable pub events_of : List (ℕ × Event) → List Event
events_of [] = []
events_of ((now, e) ∷ es) = e ∷ events_of es

-- The events of the device, and all of them for the empty text.
unfoldable pub is_from : String → Event → Bool
is_from device e = str_eq device "" || elim e.device_id [ none ↦ false | some d ↦ str_eq d device ]

filter_unless :
    (all : Bool) (p : Event → Bool) (es : List Event)
    → (if all then es else filter p es) ≡ filter (λ e. all || p e) es
filter_unless true p es = filter_all es
filter_unless false p es = refl

by_device-filter :
    (device : String) (es : List Event) → by_device device es ≡ filter (is_from device) es
unfolding by_device is_from
by_device-filter device es =
    filter_unless (str_eq device "")
      (λ e. elim e.device_id [ none ↦ false | some d ↦ str_eq d device ]) es

length-by_device : (device : String) (es : List Event) → length (by_device device es) ≤ length es
length-by_device device es = rw (by_device-filter device es) (length-filter-le (is_from device) es)

append_recent-last :
    (e : Event) (b : EventBus) (before : List Event)
    → b.recent_events ≡ last b.maxlen before
    → (append_recent e b).recent_events ≡ last b.maxlen (before ++ (e ∷ []))
unfolding append_recent
append_recent-last e b before h = rw h (last-snoc b.maxlen before e)

publish_all-last :
    (fails : StoreCall → Bool) (es : List (ℕ × Event)) (b : EventBus) (before : List Event)
    → b.recent_events ≡ last b.maxlen before
    → (publish_all fails es b).recent_events ≡ last b.maxlen (before ++ events_of es)
unfolding publish_all events_of publish append_recent
publish_all-last fails [] b before h = rw (append-nil before) h
publish_all-last fails ((now, e) ∷ es) b before h =
    let step =
      publish_all-last fails es (publish fails now e b).0 (before ++ (e ∷ []))
        (append_recent-last e b before h) in
    rw (append_assoc before (e ∷ []) (events_of es)) at step

-- Whatever the store does, `get_recent` with a limit of at least 1 gives the last `limit` events of
-- the device, in the order of their publication, out of the last `maxlen` events that were published;
-- with the empty text as the device it takes the events of all.
pub publish_all-get_recent :
    (fails : StoreCall → Bool) (has_store : Bool) (es : List (ℕ × Event)) (maxlen limit : ℕ)
    (device : String)
    → get_recent (pos (suc limit)) device (publish_all fails es (init has_store maxlen))
      ≡ last (suc limit) (filter (is_from device) (last maxlen (events_of es)))
unfolding get_recent last_slice init
publish_all-get_recent fails has_store es maxlen limit device =
    let kept = publish_all-last fails es (init has_store maxlen) [] (last_nil maxlen) in
    rw (kept, by_device-filter device) refl

-- A limit of 0 does not give an empty list: `events[-0:]` is all of them, so it gives what any limit
-- gives that is at least the number of buffered events.
pub get_recent_zero :
    (device : String) (b : EventBus) (limit : ℕ)
    → length b.recent_events ≤ limit
    → get_recent (pos 0) device b ≡ get_recent (pos limit) device b
unfolding get_recent last_slice
get_recent_zero device b zero all = refl
get_recent_zero device b (suc limit) all =
    let short = length-by_device device b.recent_events in
    let cut : length (by_device device b.recent_events) - suc limit ≡ 0 = omega arith in rw cut refl
