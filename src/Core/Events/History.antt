-- ===== src/Core/Events/History.antt =====
-- The bounded history of events.py.
use neuro_pipeline.Prelude.{
  ℕ, ◌≡◌, refl, String, Bool, true, List, [], ◌∷◌, ◌++◌, Option, none, some, take, filter,
  Bool-cases, inl, inr, str_eq, ◌&&◌, ◌||◌,
}
use mathlib.Core.List.{reverse}
use neuro_pipeline.Prelude.{filter-filter, filter_all}
use neuro_pipeline.Prelude.Last.{last, last-snoc, last_nil}
use neuro_pipeline.Core.Events.{
  Event, EventBus, add_to_history, by_field, init, get_history, publish, publish_async,
  clear_history, Handler,
}

-- Whether an optional argument lets a value through: `None` and the empty text let every value.
unfoldable pub asked : Option String → String → Bool
asked none actual = true
asked (some s) actual = str_eq s "" || str_eq actual s

-- The calls that change the history.
pub data Call (D : Type 0) : Type 0 where
  published : Bool → Event D → Call D
  published_async : Event D → Call D
  cleared : Call D

module _ {D : Type 0} where
  -- The events since the last `clear_history`, given those before.
  unfoldable pub seen : List (Event D) → List (Call D) → List (Event D)
  seen before [] = before
  seen before (published loop_running e ∷ calls) = seen (before ++ (e ∷ [])) calls
  seen before (published_async e ∷ calls) = seen (before ++ (e ∷ [])) calls
  seen before (cleared ∷ calls) = seen [] calls

  -- What `get_history` asks of an event.
  unfoldable pub wanted : Option String → Option String → Event D → Bool
  unfolding asked
  wanted event_type source e = asked event_type e.type && asked source e.source

  module _ (raises : Handler → Event D → Bool) where
    pub apply : Call D → EventBus D → EventBus D
    apply (published loop_running e) b = (publish raises loop_running e b).0
    apply (published_async e) b = (publish_async raises e b).0
    apply cleared b = clear_history b

    pub run : List (Call D) → EventBus D → EventBus D
    unfolding apply
    run [] b = b
    run (c ∷ calls) b = run calls (apply c b)

    add_to_history-last :
        (e : Event D) (b : EventBus D) (before : List (Event D))
        → b.history ≡ last b.max_history before
        → (add_to_history e b).history ≡ last b.max_history (before ++ (e ∷ []))
    unfolding add_to_history
    add_to_history-last e b before h = rw h (last-snoc b.max_history before e)

    history-last :
        (calls : List (Call D)) (b : EventBus D) (before : List (Event D))
        → b.history ≡ last b.max_history before
        → (run calls b).history ≡ last b.max_history (seen before calls)
    unfolding run seen publish publish_async clear_history
    history-last [] b before h = h
    history-last (published loop_running e ∷ calls) b before h =
        history-last calls (add_to_history e b) (before ++ (e ∷ []))
          (add_to_history-last e b before h)
    history-last (published_async e ∷ calls) b before h =
        history-last calls (add_to_history e b) (before ++ (e ∷ []))
          (add_to_history-last e b before h)
    history-last (cleared ∷ calls) b before h =
        history-last calls (clear_history b) [] (last_nil b.max_history)

  by_field-filter :
      (field : Event D → String) (o : Option String) (es : List (Event D))
      → by_field field o es ≡ filter (λ e. asked o (field e)) es
  unfolding by_field asked
  by_field-filter field none es = filter_all es
  by_field-filter field (some s) es = elim (Bool-cases (str_eq s "")) [
    | inl e ↦ rw e (filter_all es)
    | inr e ↦ rw e refl
  ]

  by_fields-filter :
      (event_type source : Option String) (es : List (Event D))
      → by_field (λ e. e.source) source (by_field (λ e. e.type) event_type es)
        ≡ filter (wanted event_type source) es
  unfolding wanted
  by_fields-filter event_type source es =
      rw (by_field-filter (λ e. e.type) event_type es, by_field-filter (λ e. e.source) source)
        (filter-filter (λ e. asked source e.source) (λ e. asked event_type e.type) es)

  module _ (raises : Handler → Event D → Bool) where
    -- After any sequence of calls of `publish`, `publish_async` and `clear_history` on a new bus, and
    -- whatever the handlers raise, `get_history` gives the newest `limit` events of those that match
    -- its two optional arguments, the newest first, out of the last `max_history` events that were
    -- published since the last `clear_history`.
    pub run-get_history :
        (calls : List (Call D)) (max_history limit : ℕ) (event_type source : Option String)
        → get_history event_type source limit (run raises calls (init max_history))
          ≡ take limit
              (filter (wanted event_type source) (reverse (last max_history (seen [] calls))))
    unfolding get_history init
    run-get_history calls max_history limit event_type source =
        let kept = history-last raises calls (init max_history) [] (last_nil max_history) in
        rw (by_fields-filter event_type source, kept) refl
