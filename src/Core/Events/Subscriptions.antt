-- ===== src/Core/Events/Subscriptions.antt =====
-- Subscribing and unsubscribing in events.py.
use neuro_pipeline.Prelude.{
  ℕ, ◌+◌, ◌≤◌, ◌≡◌, refl, String, true, false, List, [], ◌∷◌, ◌++◌, ◌==◌, ◌&&◌, arith, str_eq,
  Bool-cases, inl, inr, some, ◌≢◌,
}
use neuro_pipeline.Prelude.Refs.{
  list_remove, mem, count, one_added, taken_away, count-list_remove, mem-count, not-mem-count,
}
use neuro_pipeline.Prelude.Dict.{Dict, get, put, get-put}
use neuro_pipeline.Prelude.Dict.Counts.{bit}
use neuro_pipeline.Prelude.{if◌then◌else◌, eq_iff}
use neuro_pipeline.Core.Events.{
  EventBus, Handler, Subscription, handlers_of, add_handler, remove_handler, set_add, set_discard,
  subscribe, unsubscribe,
}

-- How often a handler is called on an event of the type.
pub called : {D : Type 0} → Handler → String → EventBus D → ℕ
unfolding count
called k event_type b =
    count k (handlers_of event_type b.subscribers) + count k b.wildcard_subscribers

handlers_of-put :
    (t u : String) (hs : List Handler) (d : Dict (List Handler))
    → handlers_of u (put t hs d) ≡ (if str_eq t u then hs else handlers_of u d)
unfolding handlers_of
handlers_of-put t u hs d = elim (Bool-cases (str_eq t u)) [
  | inl e ↦ rw (get-put t u hs d, handlers_of, e) refl
  | inr e ↦ rw (get-put t u hs d, handlers_of, e) refl
]

str_eq_refl : (t : String) → str_eq t t ≡ true
str_eq_refl t = (eq_iff t t).1 refl

-- The handlers of a type after another handler was added to one.
count-add_handler :
    (t u : String) (k h : Handler) (d : Dict (List Handler))
    → count k (handlers_of u (add_handler t h d))
      ≡ count k (handlers_of u d) + bit (str_eq t u && (h == k))
unfolding add_handler
count-add_handler t u k h d = elim (Bool-cases (str_eq t u)) [
  | inl e ↦
      let same : t ≡ u = (eq_iff t u).0 e in
      rw (handlers_of-put, e, same) (one_added k h (handlers_of u d))
  | inr e ↦ rw (handlers_of-put, e) (omega arith)
]

remove_handler-put :
    (t : String) (h : Handler) (hs : List Handler) (d : Dict (List Handler))
    → remove_handler t h (put t hs d) ≡ put t (list_remove h hs) (put t hs d)
unfolding remove_handler
remove_handler-put t h hs d =
    let found : get t (put t hs d) ≡ some hs = rw (get-put t t hs d, str_eq_refl t) refl in
    rw (found, remove_handler) refl

count-remove_handler :
    (t u : String) (k h : Handler) (d : Dict (List Handler))
    → count k (handlers_of u (remove_handler t h (add_handler t h d))) ≡ count k (handlers_of u d)
unfolding add_handler
count-remove_handler t u k h d =
    rw (remove_handler-put t h (handlers_of t d ++ (h ∷ [])) d) (elim (Bool-cases (str_eq t u)) [
      | inl e ↦
          let same : t ≡ u = (eq_iff t u).0 e in
          rw (handlers_of-put, e, same) (taken_away k h (handlers_of u d))
      | inr e ↦ rw (handlers_of-put, e, handlers_of-put, e) refl
    ])

not_star : (t : String) → t ≢ "*" → str_eq t "*" ≡ false
not_star t h = elim (Bool-cases (str_eq t "*")) [
  | inl e ↦ absurd (h ((eq_iff t "*").0 e))
  | inr e ↦ e
]

module _ {D : Type 0} (event_type : String) (h : Handler) (b : EventBus D) where
  abbrev after : EventBus D × Subscription
  after = subscribe event_type h b

  -- A subscription to one type adds one call of the handler on each event of the type, and no other
  -- call; and the function that `subscribe` returned takes this call away again, also if the handler
  -- was subscribed to the type before.
  pub unsubscribe-subscribe :
      event_type ≢ "*"
      → (k : Handler) (u : String)
      → (called k u after.0 ≡ called k u b + bit (str_eq event_type u && (h == k)))
        × (called k u (unsubscribe after.1 after.0) ≡ called k u b)
  unfolding subscribe unsubscribe called
  unsubscribe-subscribe single k u = rw (not_star event_type single) (
    omega (arith, count-add_handler event_type u k h b.subscribers),
    omega (arith, count-remove_handler event_type u k h b.subscribers),
  )

set_add-count : (h : Handler) (hs : List Handler) → count h hs ≤ 1 → count h (set_add h hs) ≡ 1
unfolding set_add
set_add-count h hs once = elim (Bool-cases (mem h hs)) [
  | inl e ↦ rw e (omega (arith, mem-count h hs e))
  | inr e ↦ rw (e, one_added h h hs) (ground (arith, not-mem-count h hs e))
]

-- The set of wildcard handlers holds a handler once, so two subscriptions of one handler to "*" are
-- one: the handler is called once on an event, and after a single one of the two functions to
-- unsubscribe it is not called as a wildcard handler at all, while every other handler of the set
-- stays as it is.
pub wildcard_shared :
    {D : Type 0} (h : Handler) (b : EventBus D)
    → count h b.wildcard_subscribers ≤ 1
    → let first = subscribe "*" h b in
      let second = subscribe "*" h first.0 in
      (count h second.0.wildcard_subscribers ≡ 1)
      × ((k : Handler)
          → count k (unsubscribe first.1 second.0).wildcard_subscribers + bit (h == k)
            ≡ count k second.0.wildcard_subscribers)
unfolding subscribe unsubscribe set_discard
wildcard_shared h b once =
    let one = set_add-count h b.wildcard_subscribers once in
    let again = set_add-count h (set_add h b.wildcard_subscribers) (omega arith) in
    (again, λ k. count-list_remove k h (set_add h (set_add h b.wildcard_subscribers)) (omega arith))
