-- ===== src/Core/Plugin/Process.antt =====
-- How detections and frames pass through the plugins in plugin.py.
use neuro_pipeline.Prelude.{
  ◌≡◌, ◌≢◌, refl, ap, ◌∙◌, Bool, true, false, List, [], ◌∷◌, ◌++◌, Option, none, arith, filter, All,
  if◌then◌else◌, Bool-cases, ◌⊎◌, inl, inr,
}
use neuro_pipeline.Prelude.Dict.{values}
use neuro_pipeline.Prelude.Sort.{sorted, filter-sorted, All-sorted}
use neuro_pipeline.Core.Plugin.{
  Answer, kept, dropped, raised, PipelinePlugin, PluginManager, by_priority, run_step, run_through,
  process_detection, process_frame,
}
use neuro_pipeline.Core.Plugin.Order.{by_priority-IsOrder}

abbrev Run : Type 0 → Type 0
Run D = Option D × List (PipelinePlugin D)

module _ {D : Type 0} where
  abbrev pub enabled : PipelinePlugin D → Bool
  enabled p = p.info.enabled

  -- The method raises, or gives back what it got, on every payload.
  abbrev pub PassesOn : (D → Answer D) → Type 0
  PassesOn f = (d : D) → (f d ≡ raised) ⊎ (f d ≡ kept d)

  module _ (p : PipelinePlugin D) (d : D) where
    step_skip :
        (b : Bool) (a : Answer D) (f : D → Run D)
        → (b ≡ false) ⊎ ((a ≡ raised) ⊎ (a ≡ kept d))
        → (run_step b a p d f).0 ≡ (f d).0
    unfolding run_step
    step_skip false a f h = refl
    step_skip true raised f h = refl
    step_skip true dropped f h = absurd (ground arith)
    step_skip true (kept d') f h = ap (λ x. (f x).0) (ground arith)

    step_congr :
        (b : Bool) (a : Answer D) (f g : D → Run D)
        → ((x : D) → (f x).0 ≡ (g x).0)
        → (run_step b a p d f).0 ≡ (run_step b a p d g).0
    unfolding run_step
    step_congr false a f g h = h d
    step_congr true raised f g h = h d
    step_congr true dropped f g h = refl
    step_congr true (kept d') f g h = h d'

    -- The plugins that a run called are a beginning of the list, and all of it if the run did not
    -- drop the payload.
    abbrev Calls : List (PipelinePlugin D) → Run D → Type 0
    Calls l r = (rest : List (PipelinePlugin D)) × (r.1 ++ rest ≡ l) × (r.0 ≢ none → rest ≡ [])

    step-Calls :
        (b : Bool) (a : Answer D) (f : D → Run D) (l : List (PipelinePlugin D))
        → ((x : D) → Calls l (f x))
        → Calls (if b then p ∷ l else l) (run_step b a p d f)
    unfolding run_step
    step-Calls false a f l h = h d
    step-Calls true raised f l h = let (rest, e, k) = h d in (rest, ap (◌∷◌ p) e, k)
    step-Calls true dropped f l h = (l, refl, λ k. absurd (k refl))
    step-Calls true (kept d') f l h = let (rest, e, k) = h d' in (rest, ap (◌∷◌ p) e, k)

  module _ (method : PipelinePlugin D → D → Answer D) where
    abbrev IsInvisible : PipelinePlugin D → Type 0
    IsInvisible p = (enabled p ≡ false) ⊎ PassesOn (method p)

    abbrev result : List (PipelinePlugin D) → D → Option D
    result ps d = (run_through method ps d).0

    invisible_at :
        (p : PipelinePlugin D) (d : D)
        → IsInvisible p
        → (enabled p ≡ false) ⊎ ((method p d ≡ raised) ⊎ (method p d ≡ kept d))
    invisible_at p d (inl e) = inl e
    invisible_at p d (inr pass) = inr (pass d)

    without :
        (visible : PipelinePlugin D → Bool) (ps : List (PipelinePlugin D)) (d : D)
        → All (λ p. visible p ≡ false → IsInvisible p) ps
        → result ps d ≡ result (filter visible ps) d
    unfolding run_through
    without visible [] d h = refl
    without visible (p ∷ ps) d h = elim (Bool-cases (visible p)) [
      | inl e ↦ rw e (step_congr p d (enabled p) (method p d) _ _ (λ x. without visible ps x h.1))
      | inr e ↦ rw e (
          step_skip p d (enabled p) (method p d) _ (invisible_at p d (h.0 e))
          ∙ without visible ps d h.1)
    ]

    called_then :
        (ps : List (PipelinePlugin D)) (d : D)
        → (rest : List (PipelinePlugin D)) × ((run_through method ps d).1 ++ rest
            ≡ filter enabled ps)
          × (result ps d ≢ none → rest ≡ [])
    unfolding run_through
    called_then [] d = ([], refl, λ h. refl)
    called_then (p ∷ ps) d =
        step-Calls p d (enabled p) (method p d) (run_through method ps) (filter enabled ps)
          (called_then ps)

  module _ (m : PluginManager D) (d : D) where
    -- Plugins that are disabled, or whose `process_detection` raises or gives back what it got on every
    -- detection, make no difference: without them the detection comes out the same.
    pub process_detection-without :
        (visible : PipelinePlugin D → Bool)
        → All
            (λ p. visible p ≡ false → (enabled p ≡ false) ⊎ PassesOn p.process_detection)
            (values m.plugins)
        → (process_detection m d).0
          ≡ (run_through
              (λ p. p.process_detection)
              (sorted by_priority (filter visible (values m.plugins)))
              d).0
    unfolding process_detection
    process_detection-without visible h =
        rw (← filter-sorted by_priority by_priority-IsOrder visible (values m.plugins)) (
          without (λ p. p.process_detection) visible (sorted by_priority (values m.plugins)) d
            (All-sorted by_priority _ (values m.plugins) h))

    -- `process_frame` calls only enabled plugins, by ascending priority and those of equal priority in
    -- the order of registration: the first ones of them, and all of them unless one drops the frame.
    pub process_frame_calls :
        (rest : List (PipelinePlugin D)) × ((process_frame m d).1 ++ rest
          ≡ sorted by_priority (filter enabled (values m.plugins)))
        × ((process_frame m d).0 ≢ none → rest ≡ [])
    unfolding process_frame
    process_frame_calls =
        rw (← filter-sorted by_priority by_priority-IsOrder enabled (values m.plugins))
          (called_then (λ p. p.process_frame) (sorted by_priority (values m.plugins)) d)
