-- ===== src/Core/EventBus/Unsubscribe.antt =====
-- What `unsubscribe` of event_bus.py does to the queues.
use neuro_pipeline.Prelude.{
  ℕ, ◌+◌, ◌≤◌, ◌<◌, ◌≡◌, refl, Bool, true, false, List, ◌==◌, ◌&&◌, not, Bool-cases, inl, inr,
  arith,
}
use neuro_pipeline.Prelude.Dict.Counts.{bit}
use neuro_pipeline.Prelude.Refs.{
  mem, list_remove, count, mem-count, not-mem-count, count-list_remove,
}
use neuro_pipeline.Core.EventBus.{Event, EventBus, unsubscribe}

pub record IsFresh (b : EventBus) : Type 0 where
  pub unlisted : (q : ℕ) → b.next_queue ≤ q → count q b.listeners ≡ 0

-- What `follow` knows about the queue.
pub record Tracks (q : ℕ) (on : Bool) (items : List Event) (b : EventBus) : Type 0 where
  pub created : q < b.next_queue
  pub listed : count q b.listeners ≡ bit on
  pub holds : b.queues q ≡ items

pub unsubscribe-IsFresh : (r : ℕ) (b : EventBus) → IsFresh b → IsFresh (unsubscribe r b)
unfolding unsubscribe
unsubscribe-IsFresh r b h = elim (Bool-cases (mem r b.listeners)) [
  | inl e ↦ rw e (record {
    unlisted = λ q later.
        let before = h.unlisted q later in
        let removed = count-list_remove q r b.listeners (mem-count r b.listeners e) in omega arith;
  })
  | inr e ↦ rw e h
]

one_less : (on same : Bool) (c d : ℕ) → c + bit same ≡ d → d ≡ bit on → c ≡ bit (on && not same)
one_less true true c d h k = omega arith
one_less true false c d h k = omega arith
one_less false true c d h k = absurd (omega arith)
one_less false false c d h k = omega arith

none_there :
    (on same : Bool) (d : ℕ) → d ≡ bit on → (same ≡ true → d ≡ 0) → d ≡ bit (on && not same)
none_there true true d h k = k refl
none_there true false d h k = h
none_there false same d h k = h

pub unsubscribe-listed :
    (q r : ℕ) (on : Bool) (b : EventBus)
    → count q b.listeners ≡ bit on
    → count q (unsubscribe r b).listeners ≡ bit (on && not (r == q))
unfolding unsubscribe
unsubscribe-listed q r on b h = elim (Bool-cases (mem r b.listeners)) [
  | inl e ↦
      let removed = count-list_remove q r b.listeners (mem-count r b.listeners e) in
      rw e
        (one_less on (r == q) (count q (list_remove r b.listeners)) (count q b.listeners) removed h)
  | inr e ↦
      let absent = not-mem-count r b.listeners e in
      rw e (
        none_there on (r == q) (count q b.listeners) h
          (λ same. let at_q : r ≡ q = ground arith in rw at_q at absent))
]

pub unsubscribe-queues : (r : ℕ) (b : EventBus) → (unsubscribe r b).queues ≡ b.queues
unfolding unsubscribe
unsubscribe-queues r b = elim (Bool-cases (mem r b.listeners)) [
  | inl e ↦ rw e refl
  | inr e ↦ rw e refl
]

pub unsubscribe-next_queue : (r : ℕ) (b : EventBus) → (unsubscribe r b).next_queue ≡ b.next_queue
unfolding unsubscribe
unsubscribe-next_queue r b = elim (Bool-cases (mem r b.listeners)) [
  | inl e ↦ rw e refl
  | inr e ↦ rw e refl
]
