-- ===== src/Core/EventBus.antt =====
-- mac-central/src/core/event_bus.py: `EventBus`. A listener's `asyncio.Queue` is an object that the
-- bus and its consumer share: it is a number, and `queues` holds what each one holds. The detection
-- store is code that the bus calls, and `fails` says which of the calls raise.
pub mod Recent
pub mod Unsubscribe
pub mod Listeners
mod Tests
use neuro_pipeline.Prelude.{
  ℕ, zero, suc, ◌+◌, ◌-◌, String, Bool, true, false, List, [], ◌∷◌, ◌++◌, Option, none, some,
  str_eq, ltb, leb, ◌==◌, ◌&&◌, not, length, drop, filter, if◌then◌else◌,
}
use neuro_pipeline.Prelude.Int.{ℤ, pos, negsuc}
use neuro_pipeline.Prelude.Refs.{mem, list_remove}

-- The keys of an event that the bus reads; a key that is missing is `none`, and `detections` is their
-- number.
pub record Event : Type 0 where
  pub id : ℕ
  pub type : Option String
  pub device_id : Option String
  pub timestamp : Option ℕ
  pub detections : Option ℕ

pub record EventBus : Type 0 where
  pub recent_events : List Event
  pub maxlen : ℕ
  pub listeners : List ℕ
  pub queues : ℕ → List Event
  pub next_queue : ℕ
  pub has_store : Bool

pub init : Bool → ℕ → EventBus
init has_store maxlen = record {
  recent_events = [];
  maxlen = maxlen;
  listeners = [];
  queues = λ q. [];
  next_queue = 0;
  has_store = has_store;
}

-- What the bus does to the store and to the counter of stored events.
pub data StoreCall : Type 0 where
  record_event : Event → StoreCall
  count_stored : StoreCall
  record_timeseries : String → String → ℕ → ℕ → StoreCall

or_empty : Option String → String
or_empty none = ""
or_empty (some s) = s

or_now : ℕ → Option ℕ → ℕ
or_now now none = now
or_now now (some t) = t

is_type : String → Event → Bool
is_type s e = elim e.type [ none ↦ false | some t ↦ str_eq t s ]

-- `event.get("detections")` as a condition: the list is there and not empty.
detection_count : Event → ℕ
detection_count e = elim e.detections [ none ↦ 0 | some n ↦ n ]

-- The calls of the `try` block, if none raises.
pub store_calls : ℕ → Event → List StoreCall
unfolding or_empty or_now is_type detection_count
store_calls now e =
    let device = or_empty e.device_id in
    let ts = or_now now e.timestamp in
    record_event e
    ∷ count_stored
    ∷ ((if is_type "detection" e && ltb 0 (detection_count e)
          then record_timeseries device "detections_count" (detection_count e) ts ∷ []
          else [])
        ++ (if is_type "vlm_analysis" e
            then record_timeseries device "vlm_analyses_count" 1 ts ∷ []
            else []))

-- The calls up to the first that raises, which is made too: `except Exception` ends the block.
pub until_failure : (StoreCall → Bool) → List StoreCall → List StoreCall
until_failure fails [] = []
until_failure fails (c ∷ cs) = if fails c then c ∷ [] else c ∷ until_failure fails cs

-- `deque.append`: the oldest event goes if there are now more than `maxlen`.
pub append_recent : Event → EventBus → EventBus
append_recent e b =
    let events = b.recent_events ++ (e ∷ []) in
    record b { recent_events = if ltb b.maxlen (length events) then drop 1 events else events }

-- `asyncio.Queue(maxsize=50)`
abbrev pub maxsize : ℕ
maxsize = 50

-- `put_nowait`, where `QueueFull` is ignored.
abbrev pub put_nowait : Event → List Event → List Event
put_nowait e items = if leb maxsize (length items) then items else items ++ (e ∷ [])

pub set_queue : ℕ → List Event → (ℕ → List Event) → ℕ → List Event
set_queue q items queues i = if q == i then items else queues i

-- `for q in self._listeners: try: q.put_nowait(event) …`
pub notify : Event → List ℕ → (ℕ → List Event) → ℕ → List Event
unfolding set_queue
notify e [] queues = queues
notify e (q ∷ qs) queues = notify e qs (set_queue q (put_nowait e (queues q)) queues)

-- The bus after `publish`, and the calls to the store. The listeners come last.
pub publish : (StoreCall → Bool) → ℕ → Event → EventBus → EventBus × List StoreCall
unfolding append_recent notify store_calls until_failure
publish fails now e b =
    let appended = append_recent e b in
    (
      record appended { queues = notify e b.listeners b.queues },
      if b.has_store then until_failure fails (store_calls now e) else [],
    )

-- A new queue, and its number.
pub subscribe : EventBus → EventBus × ℕ
unfolding set_queue
subscribe b = (
  record b {
    queues = set_queue b.next_queue [] b.queues;
    next_queue = suc b.next_queue;
    listeners = b.listeners ++ (b.next_queue ∷ []);
  },
  b.next_queue,
)

pub unsubscribe : ℕ → EventBus → EventBus
unsubscribe q b =
    if mem q b.listeners then record b { listeners = list_remove q b.listeners } else b

by_device : String → List Event → List Event
by_device device events =
    if str_eq device ""
    then events
    else filter (λ e. elim e.device_id [ none ↦ false | some d ↦ str_eq d device ]) events

-- `events[-limit:]`: the start counts from the end if `limit` is positive, and from the beginning
-- otherwise.
pub last_slice : ℤ → List Event → List Event
last_slice (pos zero) events = events
last_slice (pos (suc n)) events = drop (length events - suc n) events
last_slice (negsuc n) events = drop (suc n) events

pub get_recent : ℤ → String → EventBus → List Event
unfolding by_device last_slice
get_recent limit device b = last_slice limit (by_device device b.recent_events)
