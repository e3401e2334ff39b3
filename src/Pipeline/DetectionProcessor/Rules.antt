-- ===== src/Pipeline/DetectionProcessor/Rules.antt =====
-- Which rule detection_processor.py takes.
use neuro_pipeline.Prelude.{
  ◌≤◌, ◌<◌, ◌≡◌, refl, ap, true, false, List, [], ◌∷◌, ◌++◌, Option, none, some, any, All, arith,
  eq_iff, Bool-cases, inl, inr,
}
use mathlib.Core.List.{Mem, mem-cons_self, mem-cons_of_mem}
use neuro_pipeline.Pipeline.Detection.{Detection}
use neuro_pipeline.Pipeline.DetectionProcessor.{VlmTriggerRule, triggers, match_vlm_rule}

-- A detection of the rule's class, with a confidence above the rule's minimum.
pub record IsHit (rule : VlmTriggerRule) (ds : List Detection) : Type 0 where
  pub detection : Detection
  pub among : Mem detection ds
  pub class : detection.class_name ≡ rule.class_name
  pub above : rule.min_confidence < detection.confidence

-- Each detection of the rule's class has at most the rule's minimum as its confidence.
abbrev pub IsMissed : List Detection → VlmTriggerRule → Type 0
IsMissed ds rule =
    All (λ (d : Detection). d.class_name ≡ rule.class_name → d.confidence ≤ rule.min_confidence) ds

-- The first rule of a list that a detection hits, and nothing if there is none.
unfoldable pub IsFirst : Option VlmTriggerRule → List VlmTriggerRule → List Detection → Type 0
IsFirst none rules ds = All (IsMissed ds) rules
IsFirst (some r) rules ds =
    (before : List VlmTriggerRule) × (after : List VlmTriggerRule) × (rules ≡ before ++ (r ∷ after))
    × IsHit r ds
    × All (IsMissed ds) before

triggers_above :
    (rule : VlmTriggerRule) (d : Detection)
    → triggers rule d ≡ true
    → (d.class_name ≡ rule.class_name) × (rule.min_confidence < d.confidence)
unfolding triggers
triggers_above rule d h = ground (arith, eq_iff d.class_name rule.class_name)

not_triggers :
    (rule : VlmTriggerRule) (d : Detection)
    → triggers rule d ≡ false
    → d.class_name ≡ rule.class_name
    → d.confidence ≤ rule.min_confidence
unfolding triggers
not_triggers rule d h same = ground (arith, (eq_iff d.class_name rule.class_name).1 same)

any-IsHit :
    (rule : VlmTriggerRule) (ds : List Detection) → any (triggers rule) ds ≡ true → IsHit rule ds
any-IsHit rule [] h = absurd (ground arith)
any-IsHit rule (d ∷ ds) h = elim (Bool-cases (triggers rule d)) [
  | inl e ↦
      let hit = triggers_above rule d e in
      record { detection = d; among = mem-cons_self; class = hit.0; above = hit.1 }
  | inr e ↦
      let later = any-IsHit rule ds (ground arith) in
      record {
        detection = later.detection;
        among = mem-cons_of_mem d later.among;
        class = later.class;
        above = later.above;
      }
]

any-IsMissed :
    (rule : VlmTriggerRule) (ds : List Detection)
    → any (triggers rule) ds ≡ false
    → IsMissed ds rule
any-IsMissed rule [] h = tt
any-IsMissed rule (d ∷ ds) h =
    (not_triggers rule d (ground arith), any-IsMissed rule ds (ground arith))

later :
    (o : Option VlmTriggerRule) (rule : VlmTriggerRule) (rules : List VlmTriggerRule)
    (ds : List Detection)
    → IsMissed ds rule
    → IsFirst o rules ds
    → IsFirst o (rule ∷ rules) ds
unfolding IsFirst
later none rule rules ds missed h = (missed, h)
later (some r) rule rules ds missed (before, after, e, hit, misses) =
    (rule ∷ before, after, ap (◌∷◌ rule) e, hit, (missed, misses))

-- `_match_vlm_rule` gives the first rule in the order of the list that one of the detections hits: one
-- of its class, whose confidence is above the rule's minimum. It gives `None` exactly if there is no
-- such rule: a confidence equal to the minimum is no hit.
pub match_vlm_rule-IsFirst :
    (rules : List VlmTriggerRule) (ds : List Detection) → IsFirst (match_vlm_rule rules ds) rules ds
unfolding match_vlm_rule
match_vlm_rule-IsFirst [] ds = unfold IsFirst in tt
match_vlm_rule-IsFirst (rule ∷ rules) ds = elim (Bool-cases (any (triggers rule) ds)) [
  | inl e ↦ rw e (unfold IsFirst in ([], rules, refl, any-IsHit rule ds e, tt))
  | inr e ↦ rw e (
      later (match_vlm_rule rules ds) rule rules ds (any-IsMissed rule ds e)
        (match_vlm_rule-IsFirst rules ds))
]
