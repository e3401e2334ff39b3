-- ===== src/Core/Events.antt =====
-- mac-central/src/core/events.py: `EventBus`. A handler is code of a client: it is known by a number,
-- and `raises` says on which events it raises. Handlers that change the subscriptions while they are
-- called are outside the model. A `set` of handlers is a list in which none stands twice.
pub mod History
pub mod Delivery
pub mod Subscriptions
mod Tests
use neuro_pipeline.Prelude.{
  ℕ, zero, suc, ◌+◌, String, Bool, true, false, not, List, [], ◌∷◌, ◌++◌, Option, none, some,
  str_eq, ltb, ◌==◌, length, take, drop, filter, if◌then◌else◌,
}
use mathlib.Core.List.{reverse}
use neuro_pipeline.Prelude.Refs.{list_remove, mem}
use neuro_pipeline.Prelude.Dict.{Dict, get, put, values}

pub record Event (D : Type 0) : Type 0 where
  pub type : String
  pub payload : D
  pub source : String
  pub timestamp : ℕ
  pub id : String

abbrev pub Handler : Type 0
Handler = ℕ

pub record EventBus (D : Type 0) : Type 0 where
  pub subscribers : Dict (List Handler)
  pub async_subscribers : Dict (List Handler)
  pub wildcard_subscribers : List Handler
  pub wildcard_async_subscribers : List Handler
  pub history : List (Event D)
  pub max_history : ℕ

-- `self._subscribers.get(event_type, [])`
pub handlers_of : String → Dict (List Handler) → List Handler
handlers_of event_type d = elim (get event_type d) [ none ↦ [] | some hs ↦ hs ]

-- `d[event_type].append(handler)`, with a new list for a new type
pub add_handler : String → Handler → Dict (List Handler) → Dict (List Handler)
add_handler event_type h d = put event_type (handlers_of event_type d ++ (h ∷ [])) d

pub remove_handler : String → Handler → Dict (List Handler) → Dict (List Handler)
remove_handler event_type h d = elim (get event_type d) [
  | none ↦ d
  | some hs ↦ put event_type (list_remove h hs) d
]

-- `s.add(h)` and `s.discard(h)`
pub set_add : Handler → List Handler → List Handler
unfolding mem
set_add h s = if mem h s then s else s ++ (h ∷ [])

pub set_discard : Handler → List Handler → List Handler
unfolding list_remove
set_discard h s = list_remove h s

-- What the function that `subscribe` returns knows.
pub data Subscription : Type 0 where
  wildcard : Handler → Subscription
  typed : String → Handler → Subscription

-- A call that was made, and whether it returned without an exception.
abbrev pub Made : Type 0
Made = Handler × Bool

-- The sync calls, in their order, and the calls that were scheduled (by `publish`) or awaited (by
-- `publish_async`).
pub record Delivered : Type 0 where
  pub sync : List Made
  pub later : List Made

pub total : List (List Handler) → ℕ
total [] = 0
total (hs ∷ rest) = length hs + total rest

module _ {D : Type 0} where
  pub init : ℕ → EventBus D
  init max_history = record {
    subscribers = [];
    async_subscribers = [];
    wildcard_subscribers = [];
    wildcard_async_subscribers = [];
    history = [];
    max_history = max_history;
  }

  pub subscribe : String → Handler → EventBus D → EventBus D × Subscription
  unfolding set_add add_handler
  subscribe event_type h b =
      if str_eq event_type "*"
      then (record b { wildcard_subscribers = set_add h b.wildcard_subscribers }, wildcard h)
      else (record b { subscribers = add_handler event_type h b.subscribers }, typed event_type h)

  pub subscribe_async : String → Handler → EventBus D → EventBus D × Subscription
  unfolding set_add add_handler
  subscribe_async event_type h b =
      if str_eq event_type "*"
      then (
        record b { wildcard_async_subscribers = set_add h b.wildcard_async_subscribers },
        wildcard h,
      )
      else (
        record b { async_subscribers = add_handler event_type h b.async_subscribers },
        typed event_type h,
      )

  -- The function that `subscribe` returns.
  pub unsubscribe : Subscription → EventBus D → EventBus D
  unfolding set_discard remove_handler
  unsubscribe (wildcard h) b = record b {
    wildcard_subscribers = set_discard h b.wildcard_subscribers;
  }
  unsubscribe (typed event_type h) b = record b {
    subscribers = remove_handler event_type h b.subscribers;
  }

  -- The function that `subscribe_async` returns.
  pub unsubscribe_async : Subscription → EventBus D → EventBus D
  unfolding set_discard remove_handler
  unsubscribe_async (wildcard h) b = record b {
    wildcard_async_subscribers = set_discard h b.wildcard_async_subscribers;
  }
  unsubscribe_async (typed event_type h) b = record b {
    async_subscribers = remove_handler event_type h b.async_subscribers;
  }

  -- `append`, and `pop(0)` if there are now too many.
  pub add_to_history : Event D → EventBus D → EventBus D
  add_to_history e b =
      let events = b.history ++ (e ∷ []) in
      record b { history = if ltb b.max_history (length events) then drop 1 events else events }

  -- `if event_type: events = [e for e in events if e.type == event_type]`
  pub by_field : (Event D → String) → Option String → List (Event D) → List (Event D)
  by_field field none events = events
  by_field field (some s) events =
      if str_eq s "" then events else filter (λ e. str_eq (field e) s) events

  pub get_history : Option String → Option String → ℕ → EventBus D → List (Event D)
  unfolding by_field
  get_history event_type source limit b =
      take limit
        (by_field (λ e. e.source) source (by_field (λ e. e.type) event_type (reverse b.history)))

  pub clear_history : EventBus D → EventBus D
  clear_history b = record b { history = [] }

  pub subscriber_count : Option String → EventBus D → ℕ
  unfolding total
  subscriber_count none b =
      total (values b.subscribers)
      + total (values b.async_subscribers)
      + length b.wildcard_subscribers
      + length b.wildcard_async_subscribers
  subscriber_count (some event_type) b =
      length (handlers_of event_type b.subscribers)
      + length (handlers_of event_type b.async_subscribers)

  module _ (raises : Handler → Event D → Bool) where
    -- `for handler in handlers: try: handler(event) except Exception: …`
    pub call_all : List Handler → Event D → List Made
    call_all [] e = []
    call_all (h ∷ hs) e = (h, not (raises h e)) ∷ call_all hs e

    -- `for handler in handlers: try: asyncio.create_task(…) except Exception: …`. Without a running
    -- event loop `create_task` raises; the task itself catches what the handler raises.
    pub schedule_all : Bool → List Handler → Event D → List Made
    schedule_all loop_running [] e = []
    schedule_all loop_running (h ∷ hs) e =
        let rest = schedule_all loop_running hs e in
        if loop_running then (h, not (raises h e)) ∷ rest else rest

    pub publish : Bool → Event D → EventBus D → EventBus D × Delivered
    unfolding add_to_history
    publish loop_running e b = (
      add_to_history e b,
      record {
        sync = call_all (handlers_of e.type b.subscribers) e ++ call_all b.wildcard_subscribers e;
        later =
            schedule_all loop_running (handlers_of e.type b.async_subscribers) e
            ++ schedule_all loop_running b.wildcard_async_subscribers e;
      },
    )

    pub publish_async : Event D → EventBus D → EventBus D × Delivered
    unfolding add_to_history
    publish_async e b = (
      add_to_history e b,
      record {
        sync = call_all (handlers_of e.type b.subscribers) e ++ call_all b.wildcard_subscribers e;
        later =
            call_all (handlers_of e.type b.async_subscribers) e
            ++ call_all b.wildcard_async_subscribers e;
      },
    )
