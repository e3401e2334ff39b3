-- ===== src/Core/EventBus/Listeners.antt =====
-- The queues of the listeners in event_bus.py.
use neuro_pipeline.Prelude.{
  ℕ, ◌≤◌, ◌≡◌, refl, Bool, true, false, List, [], ◌∷◌, ◌==◌, ◌&&◌, not, drop, if◌then◌else◌,
  Bool-cases, inl, inr, arith,
}
use neuro_pipeline.Prelude.Dict.Counts.{bit}
use neuro_pipeline.Prelude.Refs.{count, one_added}
use neuro_pipeline.Core.EventBus.{
  Event, EventBus, StoreCall, init, publish, append_recent, subscribe, unsubscribe, notify,
  set_queue, put_nowait,
}
use neuro_pipeline.Core.EventBus.Unsubscribe.{
  IsFresh, Tracks, unsubscribe-IsFresh, unsubscribe-listed, unsubscribe-queues,
  unsubscribe-next_queue,
}

-- What happens to a bus; a consumer takes the first element of its queue, if there is one.
pub data Call : Type 0 where
  published : ℕ → Event → Call
  subscribed : Call
  unsubscribed : ℕ → Call
  taken : ℕ → Call

pub take_one : ℕ → EventBus → EventBus
unfolding set_queue
take_one q b = record b { queues = set_queue q (drop 1 (b.queues q)) b.queues }

module _ (fails : StoreCall → Bool) where
  pub apply : Call → EventBus → EventBus
  unfolding publish subscribe unsubscribe take_one
  apply (published now e) b = (publish fails now e b).0
  apply subscribed b = (subscribe b).0
  apply (unsubscribed q) b = unsubscribe q b
  apply (taken q) b = take_one q b

  pub run : List Call → EventBus → EventBus
  unfolding apply
  run [] b = b
  run (c ∷ cs) b = run cs (apply c b)

-- What one queue alone goes through: whether it is subscribed, and what it holds.
unfoldable pub follow : ℕ → List Call → Bool → List Event → List Event
follow q [] on items = items
follow q (published now e ∷ cs) on items = follow q cs on (if on then put_nowait e items else items)
follow q (subscribed ∷ cs) on items = follow q cs on items
follow q (unsubscribed r ∷ cs) on items = follow q cs (on && not (r == q)) items
follow q (taken r ∷ cs) on items = follow q cs on (if r == q then drop 1 items else items)

set_queue_lem :
    (q i : ℕ) (items : List Event) (queues : ℕ → List Event)
    → set_queue q items queues i ≡ (if q == i then items else queues i)
unfolding set_queue
set_queue_lem q i items queues = refl

one_at_most : (on : Bool) → 1 ≤ bit on → on ≡ true
one_at_most true h = refl
one_at_most false h = absurd (omega arith)

-- An event reaches a queue once if it is listed once, and not at all if it is not listed.
notify-queue :
    (q : ℕ) (e : Event) (qs : List ℕ) (queues : ℕ → List Event) (on : Bool)
    → count q qs ≡ bit on
    → notify e qs queues q ≡ (if on then put_nowait e (queues q) else queues q)
unfolding notify count
notify-queue q e [] queues true h = absurd (ground arith)
notify-queue q e [] queues false h = refl
notify-queue q e (x ∷ xs) queues on h =
    let rest = set_queue x (put_nowait e (queues x)) queues in
    elim (Bool-cases (x == q)) [
      | inl same ↦
          let at_q : x ≡ q = ground arith in
          let once = rw same at h in
          let is_on : on ≡ true = one_at_most on (omega arith) in
          let gone : count q xs ≡ bit false = ground arith in
          rw (notify-queue q e xs rest false gone, set_queue_lem, is_on, same, at_q) refl
      | inr other ↦
          let later = rw other at h in
          let there : count q xs ≡ bit on = omega arith in
          rw (notify-queue q e xs rest on there, set_queue_lem x q, other) refl
    ]

module _ (fails : StoreCall → Bool) where
  apply-IsFresh : (c : Call) (b : EventBus) → IsFresh b → IsFresh (apply fails c b)
  unfolding apply publish append_recent take_one
  apply-IsFresh (published now e) b h = record { unlisted = h.unlisted }
  apply-IsFresh subscribed b h = record {
    unlisted = λ q later.
        let before = h.unlisted q (omega arith) in
        let other : (b.next_queue == q) ≡ false = ground arith in
        rw (one_added q b.next_queue b.listeners, other) (omega arith);
  }
  apply-IsFresh (unsubscribed r) b h = unsubscribe-IsFresh r b h
  apply-IsFresh (taken r) b h = record { unlisted = h.unlisted }

  run-IsFresh : (cs : List Call) (b : EventBus) → IsFresh b → IsFresh (run fails cs b)
  unfolding run
  run-IsFresh [] b h = h
  run-IsFresh (c ∷ cs) b h = run-IsFresh cs (apply fails c b) (apply-IsFresh c b h)

  publish-Tracks :
      (q now : ℕ) (e : Event) (on : Bool) (items : List Event) (b : EventBus)
      → Tracks q on items b
      → Tracks q on (if on then put_nowait e items else items) (publish fails now e b).0
  unfolding publish append_recent
  publish-Tracks q now e on items b t = record {
    created = t.created;
    listed = t.listed;
    holds = rw (notify-queue q e b.listeners b.queues on t.listed, t.holds) refl;
  }

  subscribe-Tracks :
      (q : ℕ) (on : Bool) (items : List Event) (b : EventBus)
      → Tracks q on items b
      → Tracks q on items (subscribe b).0
  unfolding subscribe
  subscribe-Tracks q on items b t =
      let c = t.created in
      let l = t.listed in
      let other : (b.next_queue == q) ≡ false = ground arith in
      record {
        created = omega arith;
        listed = rw (one_added q b.next_queue b.listeners, other) (omega arith);
        holds = rw (set_queue_lem, other) t.holds;
      }

  unsubscribe-Tracks :
      (q r : ℕ) (on : Bool) (items : List Event) (b : EventBus)
      → Tracks q on items b
      → Tracks q (on && not (r == q)) items (unsubscribe r b)
  unsubscribe-Tracks q r on items b t = record {
    created = rw (unsubscribe-next_queue r b) t.created;
    listed = unsubscribe-listed q r on b t.listed;
    holds = rw (unsubscribe-queues r b) t.holds;
  }

  take_one-Tracks :
      (q r : ℕ) (on : Bool) (items : List Event) (b : EventBus)
      → Tracks q on items b
      → Tracks q on (if r == q then drop 1 items else items) (take_one r b)
  unfolding take_one
  take_one-Tracks q r on items b t = record {
    created = t.created;
    listed = t.listed;
    holds = elim (Bool-cases (r == q)) [
      | inl same ↦ let at_q : r ≡ q = ground arith in rw (set_queue_lem, same, at_q, t.holds) refl
      | inr other ↦ rw (set_queue_lem, other) t.holds
    ];
  }

  run-Tracks :
      (q : ℕ) (cs : List Call) (on : Bool) (items : List Event) (b : EventBus)
      → Tracks q on items b
      → (run fails cs b).queues q ≡ follow q cs on items
  unfolding run apply follow
  run-Tracks q [] on items b t = t.holds
  run-Tracks q (published now e ∷ cs) on items b t =
      run-Tracks q cs on _ _ (publish-Tracks q now e on items b t)
  run-Tracks q (subscribed ∷ cs) on items b t =
      run-Tracks q cs on items _ (subscribe-Tracks q on items b t)
  run-Tracks q (unsubscribed r ∷ cs) on items b t =
      run-Tracks q cs _ items _ (unsubscribe-Tracks q r on items b t)
  run-Tracks q (taken r ∷ cs) on items b t =
      run-Tracks q cs on _ _ (take_one-Tracks q r on items b t)

  init-IsFresh : (has_store : Bool) (maxlen : ℕ) → IsFresh (init has_store maxlen)
  unfolding init count
  init-IsFresh has_store maxlen = record { unlisted = λ q later. refl }

  new-Tracks : (b : EventBus) → IsFresh b → Tracks (subscribe b).1 true [] (subscribe b).0
  unfolding subscribe
  new-Tracks b h =
      let same : (b.next_queue == b.next_queue) ≡ true = ground arith in
      let unlisted = h.unlisted b.next_queue (omega arith) in
      record {
        created = omega arith;
        listed = rw (one_added b.next_queue b.next_queue b.listeners, same) (omega arith);
        holds = rw (set_queue_lem, same) refl;
      }

  -- Listeners do not disturb each other, and neither does the store. Whatever happened to a bus before
  -- `subscribe`, and whatever happens after it, the new queue holds what it would hold alone: each
  -- event that is published until it is unsubscribed, in that order and once, as long as there are
  -- fewer than 50 events in it, less those that its consumer took; an event that finds it full is
  -- lost for this queue only.
  pub run-queue :
      (has_store : Bool) (maxlen : ℕ) (before after : List Call)
      → let s = subscribe (run fails before (init has_store maxlen)) in
        (run fails after s.0).queues s.1 ≡ follow s.1 after true []
  run-queue has_store maxlen before after =
      let b = run fails before (init has_store maxlen) in
      let fresh = run-IsFresh before (init has_store maxlen) (init-IsFresh has_store maxlen) in
      run-Tracks (subscribe b).1 after true [] (subscribe b).0 (new-Tracks b fresh)
