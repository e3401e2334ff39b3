-- ===== src/Pipeline/VlmPipeline/Guided.antt =====
-- The loop from a result to the commands for the edge: vlm_pipeline.py with the adjustments of
-- vlm_config_guide.py.
use neuro_pipeline.Prelude.{
  ℕ, ◌≤◌, ◌≡◌, ◌⊎◌, inl, inr, refl, sym, ap, ◌∙◌, String, Bool, true, false, List, [], ◌∷◌, ◌++◌,
  ◌&&◌, map, append-nil, append_assoc, Option, none, some, arith, length, All, if◌then◌else◌,
}
use neuro_pipeline.Prelude.Dict.{Dict}
use neuro_pipeline.Inference.ConfigGuide.Regions.{Regex}
use neuro_pipeline.Inference.ConfigGuide.{
  ConfigGuide, Param, parse_vlm_result, to_command_params, VlmGuidanceResult,
}
use neuro_pipeline.Inference.ConfigGuide
use neuro_pipeline.Inference.ConfigGuide.Adjustments.{IsSafe, IsEnabled, parse_vlm_result-IsSafe}
use neuro_pipeline.Pipeline.VlmPipeline.{
  ConfigAdjustment, ConfigAdjustmentType, detection_region, sensitivity, fps, focus_area, World,
  Vlm, ControlCommand, command_type, send_one, send_all, apply_to, apply_vlm_guidance, is_text,
}

-- `cmd.parameters[k] = str(v)`, with `str` given
shown : (Param → String) → Dict Param → Dict String
shown show [] = []
shown show ((k, v) ∷ d) = (k, show v) ∷ shown show d

-- The adjustments as the pipeline sends them: every value can be put into a message.
module _ (show : Param → String) where
  pub as_sent : ConfigGuide.ConfigAdjustment → ConfigAdjustment
  unfolding shown
  as_sent a = record {
    adjustment_type = a.adjustment_type;
    parameters = shown show (to_command_params a);
    builds = true;
  }

  pub to_apply : VlmGuidanceResult → Option (List ConfigAdjustment)
  unfolding as_sent
  to_apply r = if r.should_apply then some (map as_sent r.adjustments) else none

-- A command of a kind that is enabled: SET_DETECTION_REGION, SET_SENSITIVITY or SET_FPS.
abbrev pub IsPermitted : ConfigGuide → ControlCommand → Type 0
IsPermitted g c =
    ((c.type ≡ 7) × (g.enable_region_adjustment ≡ true))
    ⊎ (((c.type ≡ 8) × (g.enable_sensitivity_adjustment ≡ true))
        ⊎ ((c.type ≡ 0) × (g.enable_fps_adjustment ≡ true)))

-- The commands of `s'` are those of `s` and some more.
pub record Sends (g : ConfigGuide) (limit : ℕ) (s s' : Vlm) : Type 0 where
  pub added : List ControlCommand
  pub commands : s'.commands ≡ s.commands ++ added
  pub few : length added ≤ limit
  pub permitted : All (IsPermitted g) added

nothing_sent : (g : ConfigGuide) (limit : ℕ) (s : Vlm) → Sends g limit s s
nothing_sent g limit s = record {
  added = [];
  commands = sym (append-nil s.commands);
  few = omega arith;
  permitted = tt;
}

module _ (g : ConfigGuide) (show : Param → String) where
  command_type-IsPermitted :
      (kind : ConfigAdjustmentType) (c : ControlCommand)
      → c.type ≡ command_type kind
      → IsEnabled g kind
      → IsPermitted g c
  unfolding command_type IsEnabled
  command_type-IsPermitted detection_region c e h = inl (e, h)
  command_type-IsPermitted sensitivity c e h = inr (inl (e, h))
  command_type-IsPermitted fps c e h = inr (inr (e, h))
  command_type-IsPermitted focus_area c e h = absurd h

  send_one-commands :
      (a : ConfigGuide.ConfigAdjustment) (s : Vlm)
      → (c : ControlCommand) × ((send_one (as_sent show a) s).commands ≡ s.commands ++ (c ∷ []))
        × (c.type ≡ command_type a.adjustment_type)
  unfolding send_one as_sent
  send_one-commands a s = (record { type = _; command_id = _; parameters = _ }, refl, refl)

  send_all-Sends :
      (adjustments : List ConfigGuide.ConfigAdjustment) (s : Vlm)
      → All (IsSafe g) adjustments
      → Sends g (length adjustments) s (send_all (map (as_sent show) adjustments) s)
  unfolding send_all as_sent
  send_all-Sends [] s h = nothing_sent g 0 s
  send_all-Sends (a ∷ rest) s h =
      let more = send_all-Sends rest (send_one (as_sent show a) s) h.1 in
      let (c, sent, kind) = send_one-commands a s in
      record {
        added = c ∷ more.added;
        commands =
            more.commands
            ∙ (ap (λ cs. cs ++ more.added) sent ∙ append_assoc s.commands (c ∷ []) more.added);
        few = omega (arith, more.few);
        permitted =
            (command_type-IsPermitted a.adjustment_type c kind h.0.is_enabled, more.permitted);
      }

  Sends-if :
      (b : Bool) (limit : ℕ) (s s' : Vlm)
      → Sends g limit s s'
      → Sends g limit s (if b then s' else s)
  Sends-if true limit s s' h = h
  Sends-if false limit s s' h = nothing_sent g limit s

  apply_to-Sends :
      (b : Bool) (adjustments : List ConfigGuide.ConfigAdjustment) (limit : ℕ) (s : Vlm)
      → All (IsSafe g) adjustments
      → length adjustments ≤ limit
      → Sends g limit s (apply_to (if b then some (map (as_sent show) adjustments) else none) s)
  unfolding apply_to
  apply_to-Sends false adjustments limit s h few = nothing_sent g limit s
  apply_to-Sends true adjustments limit s h few =
      let all = send_all-Sends adjustments s h in
      Sends-if s.services.command_queue limit s _ (record {
        added = all.added;
        commands = all.commands;
        few = omega (arith, all.few);
        permitted = all.permitted;
      })

  -- Whatever the model writes, one result makes the pipeline send at most
  -- `max_adjustments_per_result` commands, after those that were sent before and only of the kinds
  -- that are enabled: with the defaults no command ever changes the frame rate.
  pub apply_vlm_guidance-Sends :
      (re : Regex) (w : World) (result device_id : String) (s : Vlm)
      → w.adjustments result ≡ to_apply show (parse_vlm_result re result g)
      → Sends g g.max_adjustments_per_result s (apply_vlm_guidance w result device_id s)
  unfolding apply_vlm_guidance to_apply
  apply_vlm_guidance-Sends re w result device_id s answers =
      let safe = parse_vlm_result-IsSafe g re result in
      let r = parse_vlm_result re result g in
      rw answers (
        Sends-if (s.services.vlm_config_guide && is_text device_id) g.max_adjustments_per_result s _
          (apply_to-Sends r.should_apply r.adjustments g.max_adjustments_per_result s safe.0
            safe.1))
