-- ===== src/Pipeline/VlmPipeline/Steps.antt =====
-- What one item does to the pipeline of vlm_pipeline.py: lemmas.
use neuro_pipeline.Prelude.{
  ℕ, suc, ◌+◌, ◌≡◌, refl, String, Bool, true, false, ◌&&◌, List, [], ◌∷◌, ◌++◌, Option, none, some,
  arith, length, length-append, if◌then◌else◌, Bool-cases, inl, inr,
}
use neuro_pipeline.Prelude.Dict.Counts.{bit}
use neuro_pipeline.Observability.CircuitBreaker.{
  CircuitBreaker, allow_request, record_success, record_failure,
}
use neuro_pipeline.Pipeline.VlmPipeline.{
  Item, World, Vlm, ConfigAdjustment, ControlCommand, send_one, send_all, apply_to,
  apply_vlm_guidance, succeed, publish_result, analysis_of, fail, settle, attempt, with_history,
  with_context, task_done, process_item, is_opened, is_text,
}

-- A step that can change the commands and their counter only.
pub IsGuidance : Vlm → Vlm → Type 0
IsGuidance s s' =
    (k : ℕ) × (cs : List ControlCommand) × (s' ≡ record s { command_id_counter = k; commands = cs })

send_all-IsGuidance : (as' : List ConfigAdjustment) (s : Vlm) → IsGuidance s (send_all as' s)
unfolding send_all send_one IsGuidance
send_all-IsGuidance [] s = (s.command_id_counter, s.commands, refl)
send_all-IsGuidance (a ∷ rest) s = elim (Bool-cases a.builds) [
  | inl e ↦
      let (k, cs, same) = send_all-IsGuidance rest (send_one a s) in (k, cs, rw (e, same) refl)
  | inr e ↦ (suc s.command_id_counter, s.commands, rw e refl)
]

none-IsGuidance : (s : Vlm) → IsGuidance s s
unfolding IsGuidance
none-IsGuidance s = (s.command_id_counter, s.commands, refl)

if-IsGuidance : (b : Bool) (s s' : Vlm) → IsGuidance s s' → IsGuidance s (if b then s' else s)
if-IsGuidance true s s' h = h
if-IsGuidance false s s' h = none-IsGuidance s

apply_to-IsGuidance : (o : Option (List ConfigAdjustment)) (s : Vlm) → IsGuidance s (apply_to o s)
unfolding apply_to
apply_to-IsGuidance none s = none-IsGuidance s
apply_to-IsGuidance (some as') s =
    if-IsGuidance s.services.command_queue s (send_all as' s) (send_all-IsGuidance as' s)

apply_vlm_guidance-IsGuidance :
    (w : World) (result device_id : String) (s : Vlm)
    → IsGuidance s (apply_vlm_guidance w result device_id s)
unfolding apply_vlm_guidance
apply_vlm_guidance-IsGuidance w result device_id s =
    if-IsGuidance (s.services.vlm_config_guide && is_text device_id) s
      (apply_to (w.adjustments result) s) (apply_to-IsGuidance (w.adjustments result) s)

-- The breaker after an item that was let through, by what came of it.
abbrev pub reported : World → Option String → CircuitBreaker → CircuitBreaker
reported w none b = record_failure w.failed_at b
reported w (some result) b = record_success b

-- How many events an outcome publishes, and how many calls of `check_and_fire` it starts.
abbrev pub events_of : Option String → ℕ
events_of none = 0
events_of (some result) = 1

abbrev pub alerts_of : Bool → World → Option String → CircuitBreaker → ℕ
alerts_of has_alerts w none b = bit (is_opened (record_failure w.failed_at b).state && has_alerts)
alerts_of has_alerts w (some result) b = 0

-- What a step from one pipeline to another changed of the parts that the theorems are about.
pub record Settled (w : World) (o : Option String) (s s' : Vlm) : Type 0 where
  pub services : s'.services ≡ s.services
  pub breaker : s'.circuit_breaker ≡ reported w o s.circuit_breaker
  pub analyzed : s'.analyzed ≡ s.analyzed
  pub events : length s'.published ≡ length s.published + events_of o
  pub alert_checks :
      s'.alert_checks ≡ s.alert_checks + alerts_of s.services.alert_manager w o s.circuit_breaker
  pub done : s'.tasks_done ≡ s.tasks_done

Settled-guided :
    (w : World) (o : Option String) (s s' s'' : Vlm)
    → IsGuidance s' s''
    → Settled w o s s'
    → Settled w o s s''
unfolding IsGuidance
Settled-guided w o s s' s'' (k, cs, same) h = record {
  services = rw same h.services;
  breaker = rw same h.breaker;
  analyzed = rw same h.analyzed;
  events = rw same h.events;
  alert_checks = rw same h.alert_checks;
  done = rw same h.done;
}

publish_result-Settled :
    (w : World) (item : Item) (result : String) (s : Vlm)
    → Settled w (some result) s (publish_result w item result s)
unfolding publish_result
publish_result-Settled w item result s = record {
  services = refl;
  breaker = refl;
  analyzed = refl;
  events = length-append s.published (analysis_of w item result ∷ []);
  alert_checks = omega arith;
  done = refl;
}

if_suc : (b : Bool) (n : ℕ) → (if b then suc n else n) ≡ n + bit b
if_suc b n = ground arith

settle-Settled :
    (w : World) (item : Item) (o : Option String) (s : Vlm) → Settled w o s (settle w item o s)
unfolding settle succeed fail
settle-Settled w item none s = record {
  services = refl;
  breaker = refl;
  analyzed = refl;
  events = omega arith;
  alert_checks =
      if_suc
        (is_opened (record_failure w.failed_at s.circuit_breaker).state && s.services.alert_manager)
        s.alert_checks;
  done = refl;
}
settle-Settled w item (some result) s =
    let before = publish_result w item result s in
    Settled-guided w (some result) s before (succeed w item result s)
      (apply_vlm_guidance-IsGuidance w result item.device_id before)
      (publish_result-Settled w item result s)

-- An item that has a result of the batch makes no call of `analyze_image`.
pub attempt-batched :
    (w : World) (item : Item) (result : String) (s : Vlm)
    → Settled w (some result) s (attempt w item (some result) s)
unfolding attempt
attempt-batched w item result s =
    let asked = with_history item.device_id (with_context s.services w item) s.conversations in
    let h = settle-Settled w item (some result) (record s { conversations = asked.0 }) in
    record {
      services = h.services;
      breaker = h.breaker;
      analyzed = h.analyzed;
      events = h.events;
      alert_checks = h.alert_checks;
      done = h.done;
    }

-- The prompt with which an item that has no such result calls it.
pub asked_of : World → Item → Vlm → String
asked_of w item s = (with_history item.device_id (with_context s.services w item) s.conversations).1

-- The pipeline while the model is asked.
unfoldable pub asking : World → Item → Vlm → Vlm
unfolding asked_of
asking w item s = record s {
  conversations = (with_history item.device_id (with_context s.services w item) s.conversations).0;
  analyzed = s.analyzed ++ (asked_of w item s ∷ []);
}

pub attempt-alone :
    (w : World) (item : Item) (s : Vlm)
    → Settled w (w.analyze_image (asked_of w item s)) (asking w item s) (attempt w item none s)
unfolding attempt asking asked_of
attempt-alone w item s =
    settle-Settled w item (w.analyze_image (asked_of w item s)) (asking w item s)

module _ (w : World) (item : Item) (batch_result : Option String) (s : Vlm) where
  pub process_item-refused :
      (allow_request w.asked_at s.circuit_breaker).1 ≡ false
      → process_item w item batch_result s
        ≡ task_done (record s { circuit_breaker = (allow_request w.asked_at s.circuit_breaker).0 })
  unfolding process_item
  process_item-refused e = rw e refl

  pub process_item-admitted :
      (allow_request w.asked_at s.circuit_breaker).1 ≡ true
      → process_item w item batch_result s
        ≡ task_done (
            attempt w item batch_result
              (record s { circuit_breaker = (allow_request w.asked_at s.circuit_breaker).0 }))
  unfolding process_item
  process_item-admitted e = rw e refl
