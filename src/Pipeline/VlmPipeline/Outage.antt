-- ===== src/Pipeline/VlmPipeline/Outage.antt =====
-- What vlm_pipeline.py does while the model fails.
use neuro_pipeline.Prelude.{
  ℕ, zero, suc, ◌+◌, ◌-◌, ◌≤◌, ◌<◌, min, ◌≡◌, refl, ap, ◌∙◌, String, Bool, List, [], ◌∷◌, ◌&&◌,
  none, arith, length, length-append, leb, All, le→leb,
}
use mathlib.Core.Path.{subst}
use neuro_pipeline.Prelude.Dict.Counts.{bit}
use neuro_pipeline.Observability.CircuitBreaker.{closed, opened, allow_request, record_failure}
use neuro_pipeline.Observability.CircuitBreaker.Client.{
  closed-admits, opened-refuses, failure-below, failure-trips, failure-Failed,
}
use neuro_pipeline.Pipeline.VlmPipeline.{
  Item, World, Vlm, process_items, process_item, task_done, is_opened,
}
use neuro_pipeline.Pipeline.VlmPipeline.Steps.{
  attempt-alone, asked_of, asking, process_item-admitted, process_item-refused,
}

-- In this world the model fails, after the time `start`, and the breaker is asked before a timeout
-- has passed since then.
pub record IsFailing (start timeout : ℕ) (w : World) : Type 0 where
  pub fails : (prompt : String) → w.analyze_image prompt ≡ none
  pub late : start ≤ w.failed_at
  pub early : w.asked_at < start + timeout

-- What an outage did: calls of the model, and of `check_and_fire`.
pub record Outage (calls fired n : ℕ) (s s' : Vlm) : Type 0 where
  pub calls_made : length s'.analyzed ≡ length s.analyzed + calls
  pub alerts_fired : s'.alert_checks ≡ s.alert_checks + fired
  pub events : length s'.published ≡ length s.published
  pub done : s'.tasks_done ≡ s.tasks_done + n

-- A refused item.
item-refused :
    (start timeout : ℕ) (w : World) (item : Item) (s : Vlm)
    → IsFailing start timeout w
    → s.circuit_breaker.state ≡ opened
    → start + timeout ≤ s.circuit_breaker.last_failure_time + s.circuit_breaker.recovery_timeout
    → process_item w item none s ≡ task_done s
item-refused start timeout w item s f h late =
    let refused = opened-refuses w.asked_at s.circuit_breaker h (omega (arith, f.early)) in
    let b = (allow_request w.asked_at s.circuit_breaker).0 in
    let same : b ≡ s.circuit_breaker = ap (λ p. p.0) refused in
    process_item-refused w item none s (ap (λ p. p.1) refused)
    ∙ ap (λ c. task_done (record s { circuit_breaker = c })) same

opened-Outage :
    (start timeout : ℕ) (batch : List (World × Item)) (s : Vlm)
    → All (λ x. IsFailing start timeout x.0) batch
    → s.circuit_breaker.state ≡ opened
    → start + timeout ≤ s.circuit_breaker.last_failure_time + s.circuit_breaker.recovery_timeout
    → Outage 0 0 (length batch) s (process_items batch none s)
unfolding process_items task_done
opened-Outage start timeout [] s fs h late = record {
  calls_made = omega arith;
  alerts_fired = omega arith;
  events = refl;
  done = omega arith;
}
opened-Outage start timeout ((w, item) ∷ rest) s fs h late =
    let more = opened-Outage start timeout rest (task_done s) fs.1 h late in
    rw (item-refused start timeout w item s fs.0 h late) (record {
      calls_made = more.calls_made;
      alerts_fired = more.alerts_fired;
      events = more.events;
      done = omega (arith, more.done);
    })

-- What a failing item does to a closed breaker's pipeline.
record Failing (w : World) (s s' : Vlm) : Type 0 where
  pub services : s'.services ≡ s.services
  pub breaker : s'.circuit_breaker ≡ record_failure w.failed_at s.circuit_breaker
  pub called : length s'.analyzed ≡ suc (length s.analyzed)
  pub alert_checks :
      s'.alert_checks
      ≡ s.alert_checks
        + bit (
            is_opened (record_failure w.failed_at s.circuit_breaker).state
            && s.services.alert_manager)
  pub events : length s'.published ≡ length s.published
  pub done : s'.tasks_done ≡ suc s.tasks_done

item-Failing :
    (w : World) (item : Item) (s : Vlm)
    → ((prompt : String) → w.analyze_image prompt ≡ none)
    → s.circuit_breaker.state ≡ closed
    → Failing w s (process_item w item none s)
unfolding task_done asking
item-Failing w item s fails h =
    let admitted = closed-admits w.asked_at s.circuit_breaker h in
    let b = (allow_request w.asked_at s.circuit_breaker).0 in
    let same : b ≡ s.circuit_breaker = ap (λ p. p.0) admitted in
    let s0 = record s { circuit_breaker = b } in
    let settled = attempt-alone w item s0 in
    let step = rw (fails (asked_of w item s0)) at settled in
    let alerted =
      ap
        (λ c.
          s.alert_checks
          + bit (is_opened (record_failure w.failed_at c).state && s.services.alert_manager))
        same in
    rw (process_item-admitted w item none s (ap (λ p. p.1) admitted)) (record {
      services = step.services;
      breaker = step.breaker ∙ ap (record_failure w.failed_at) same;
      called =
          ap length step.analyzed
          ∙ omega (arith, length-append s.analyzed (asked_of w item s0 ∷ []));
      alert_checks = step.alert_checks ∙ alerted;
      events = omega (arith, step.events);
      done = ap suc step.done;
    })

leb-suc : (m n : ℕ) → leb (suc m) (suc n) ≡ leb m n
leb-suc m n = ground arith

-- The outage from a closed breaker on that can still count `suc left` failures.
closed-Outage :
    (start timeout left : ℕ) (alerting : Bool) (batch : List (World × Item)) (s : Vlm)
    → All (λ x. IsFailing start timeout x.0) batch
    → s.circuit_breaker.state ≡ closed
    → s.circuit_breaker.failure_count + suc left ≡ s.circuit_breaker.failure_threshold
    → s.circuit_breaker.recovery_timeout ≡ timeout
    → s.services.alert_manager ≡ alerting
    → Outage
        (min (suc left) (length batch))
        (bit (leb (suc left) (length batch) && alerting))
        (length batch)
        s
        (process_items batch none s)
unfolding process_items is_opened
closed-Outage start timeout left alerting [] s fs h count t am = record {
  calls_made = omega arith;
  alerts_fired = ground arith;
  events = refl;
  done = omega arith;
}
closed-Outage start timeout zero alerting ((w, item) ∷ rest) s fs h count t am =
    let step = item-Failing w item s fs.0.fails h in
    let failed = failure-Failed w.failed_at s.circuit_breaker in
    let trips = failure-trips w.failed_at s.circuit_breaker h (omega arith) in
    let is_open : (process_item w item none s).circuit_breaker.state ≡ opened =
      rw step.breaker trips in
    let fired : (process_item w item none s).alert_checks ≡ s.alert_checks + bit alerting =
      step.alert_checks
      ∙ ap (λ p. s.alert_checks + bit (is_opened p && s.services.alert_manager)) trips
      ∙ ap (λ a. s.alert_checks + bit a) am in
    let late = fs.0.late in
    let until : start + timeout
        ≤ (record_failure w.failed_at s.circuit_breaker).last_failure_time
          + (record_failure w.failed_at s.circuit_breaker).recovery_timeout =
      omega (arith, failed.last, failed.timeout) in
    let more =
      opened-Outage start timeout rest (process_item w item none s) fs.1 is_open
        (rw step.breaker until) in
    record {
      calls_made = omega (arith, more.calls_made, step.called);
      alerts_fired =
          rw (le→leb 1 (suc (length rest)) (omega arith)) (omega (arith, more.alerts_fired, fired));
      events = more.events ∙ step.events;
      done = omega (arith, more.done, step.done);
    }
closed-Outage start timeout (suc left) alerting ((w, item) ∷ rest) s fs h count t am =
    let step = item-Failing w item s fs.0.fails h in
    let failed = failure-Failed w.failed_at s.circuit_breaker in
    let stays = failure-below w.failed_at s.circuit_breaker h (omega arith) in
    let quiet : (process_item w item none s).alert_checks ≡ s.alert_checks + 0 =
      step.alert_checks
      ∙ ap (λ p. s.alert_checks + bit (is_opened p && s.services.alert_manager)) stays in
    let counted : (record_failure w.failed_at s.circuit_breaker).failure_count + suc left
        ≡ (record_failure w.failed_at s.circuit_breaker).failure_threshold =
      omega (arith, failed.count, failed.threshold) in
    let more =
      closed-Outage start timeout left alerting rest (process_item w item none s) fs.1
        (rw step.breaker stays) (rw step.breaker counted) (rw step.breaker (failed.timeout ∙ t))
        (ap (λ v. v.alert_manager) step.services ∙ am) in
    record {
      calls_made = omega (arith, more.calls_made, step.called);
      alerts_fired =
          rw (leb-suc (suc left) (length rest)) (omega (arith, more.alerts_fired, quiet));
      events = more.events ∙ step.events;
      done = omega (arith, more.done, step.done);
    }

-- An outage of the model, met by a closed breaker that has counted no failure: no batch has results,
-- and `analyze_image` fails for every item, from the time `start` on and for less than the recovery
-- timeout. Then the model is called for the first items only, as many as the failure threshold;
-- `check_and_fire` is called once, and only once, if there are that many items and there is an alert
-- manager; no event is published; and every item is marked as done.
pub process_items-Outage :
    (start : ℕ) (batch : List (World × Item)) (s : Vlm)
    → All (λ x. IsFailing start s.circuit_breaker.recovery_timeout x.0) batch
    → s.circuit_breaker.state ≡ closed
    → s.circuit_breaker.failure_count ≡ 0
    → 0 < s.circuit_breaker.failure_threshold
    → let th = s.circuit_breaker.failure_threshold in
      Outage
        (min th (length batch))
        (bit (leb th (length batch) && s.services.alert_manager))
        (length batch)
        s
        (process_items batch none s)
process_items-Outage start batch s fs h count some_allowed =
    let th = s.circuit_breaker.failure_threshold in
    let one_more : suc (th - 1) ≡ th = omega arith in
    let left : s.circuit_breaker.failure_count + suc (th - 1) ≡ th = omega arith in
    let shown =
      closed-Outage start s.circuit_breaker.recovery_timeout (th - 1) s.services.alert_manager batch
        s fs h left refl refl in
    subst
      (λ k.
        Outage (min k (length batch)) (bit (leb k (length batch) && s.services.alert_manager))
          (length batch) s (process_items batch none s))
      one_more shown
