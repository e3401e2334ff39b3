-- ===== src/Pipeline/DetectionProcessor/Enqueue.antt =====
-- One request that detection_processor.py queues: the place it takes, or its loss.
use neuro_pipeline.Prelude.{
  ℕ, suc, ◌-◌, ◌≤◌, ◌<◌, ◌≡◌, refl, ap, ◌∙◌, sym, Bool, true, false, List, [], ◌∷◌, ◌++◌,
  if◌then◌else◌, length, length-append, length-take, take, take-append_le, take_all, arith,
  Bool-cases, inl, inr,
}
use neuro_pipeline.Pipeline.DetectionProcessor.{DetectionProcessor, enqueue, is_full}
use neuro_pipeline.Pipeline.VlmPipeline.{Item}

-- The queue holds the first of the requests `xs`, as many as fit, and the others were dropped.
pub record Queued (xs : List Item) (p : DetectionProcessor) : Type 0 where
  pub queue : p.vlm_queue ≡ take p.maxsize xs
  pub dropped : p.dropped ≡ length xs - p.maxsize
  pub alert_checks : p.alert_checks ≡ (if p.parts.alert_manager then length xs - p.maxsize else 0)

-- What does not change while results are processed.
pub record Same (p p' : DetectionProcessor) : Type 0 where
  pub parts : p'.parts ≡ p.parts
  pub rules : p'.vlm_rules ≡ p.vlm_rules
  pub maxsize : p'.maxsize ≡ p.maxsize
  pub shutting_down : p'.shutting_down ≡ p.shutting_down

take_more :
    (n : ℕ) (xs : List Item) (x : Item)
    → length (take n xs) < n
    → take n xs ++ (x ∷ []) ≡ take n (xs ++ (x ∷ []))
take_more n xs x room =
    let short : length xs < n = omega (arith, length-take n xs) in
    rw
      (
        take_all xs n (omega arith),
        take_all (xs ++ (x ∷ [])) n (omega (arith, length-append xs (x ∷ []))),
      )
      refl

take_full :
    (n : ℕ) (xs : List Item) (x : Item)
    → n ≤ length (take n xs)
    → take n xs ≡ take n (xs ++ (x ∷ []))
take_full n xs x full = sym (take-append_le n xs (x ∷ []) (omega (arith, length-take n xs)))

alert_one :
    (b : Bool) (alert_checks n m : ℕ)
    → alert_checks ≡ (if b then n else 0)
    → m ≡ suc n
    → (if b then suc alert_checks else alert_checks) ≡ (if b then m else 0)
alert_one b alert_checks n m h k = ground arith

if_yes :
    (xs : List Item) (b : Bool) (q r : DetectionProcessor)
    → b ≡ true
    → Queued xs q
    → Queued xs (if b then q else r)
if_yes xs true q r e h = h
if_yes xs false q r e h = absurd (ground arith)

if_no :
    (xs : List Item) (b : Bool) (q r : DetectionProcessor)
    → b ≡ false
    → Queued xs r
    → Queued xs (if b then q else r)
if_no xs true q r e h = absurd (ground arith)
if_no xs false q r e h = h

is_full-length :
    (p : DetectionProcessor)
    → (is_full p ≡ true → p.maxsize ≤ length p.vlm_queue)
      × (0 < p.maxsize → is_full p ≡ false → length p.vlm_queue < p.maxsize)
unfolding is_full
is_full-length p = (λ e. ground arith, λ some_room e. ground arith)

pub nothing_dropped : (b : Bool) (m : ℕ) → 0 ≡ (if b then 0 - m else 0)
nothing_dropped true m = omega arith
nothing_dropped false m = refl

pub enqueue-Queued :
    (xs : List Item) (x : Item) (p : DetectionProcessor)
    → 0 < p.maxsize
    → p.shutting_down ≡ false
    → Queued xs p
    → Queued (xs ++ (x ∷ [])) (enqueue x p)
unfolding enqueue
enqueue-Queued xs x p some_room on h =
    let len = length-append xs (x ∷ []) in
    let held = ap length h.queue in
    if_no (xs ++ (x ∷ [])) p.shutting_down p _ on (elim (Bool-cases (is_full p)) [
      | inl full ↦
          let over = (is_full-length p).0 full in
          let cut = length-take p.maxsize xs in
          if_yes (xs ++ (x ∷ [])) (is_full p) _ _ full (record {
            queue = h.queue ∙ take_full p.maxsize xs x (omega arith);
            dropped = omega (arith, h.dropped);
            alert_checks =
                alert_one p.parts.alert_manager p.alert_checks (length xs - p.maxsize)
                  (length (xs ++ (x ∷ [])) - p.maxsize) h.alert_checks (omega arith);
          })
      | inr room ↦
          let under = (is_full-length p).1 some_room room in
          let cut = length-take p.maxsize xs in
          let unchanged : length xs - p.maxsize ≡ length (xs ++ (x ∷ [])) - p.maxsize =
            omega arith in
          if_no (xs ++ (x ∷ [])) (is_full p) _ _ room (record {
            queue = ap (λ q. q ++ (x ∷ [])) h.queue ∙ take_more p.maxsize xs x (omega arith);
            dropped = omega (arith, h.dropped);
            alert_checks =
                h.alert_checks ∙ ap (λ n. if p.parts.alert_manager then n else 0) unchanged;
          })
    ])

pub if-Same :
    (b : Bool) (p q r : DetectionProcessor) → Same p q → Same p r → Same p (if b then q else r)
if-Same true p q r h k = h
if-Same false p q r h k = k

pub same : (p : DetectionProcessor) → Same p p
same p = record { parts = refl; rules = refl; maxsize = refl; shutting_down = refl }

pub enqueue-Same : (item : Item) (p : DetectionProcessor) → Same p (enqueue item p)
unfolding enqueue
enqueue-Same item p = if-Same p.shutting_down p p _ (same p) (
    if-Same (is_full p) p _ _
      (record { parts = refl; rules = refl; maxsize = refl; shutting_down = refl })
      (record { parts = refl; rules = refl; maxsize = refl; shutting_down = refl }))
