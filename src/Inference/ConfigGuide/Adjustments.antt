-- ===== src/Inference/ConfigGuide/Adjustments.antt =====
-- What vlm_config_guide.py can ask of an edge device.
use neuro_pipeline.Prelude.{
  ℕ, zero, suc, ◌≤◌, ◌≡◌, refl, String, Bool, true, false, List, [], ◌∷◌, Option, none, some, arith,
  leb, ltb, leb→le, length, length-append, length-take, take, All, All-append, Bool-cases, inl, inr,
  if◌then◌else◌,
}
use neuro_pipeline.Prelude.Int.{ℤ, pos, negsuc, pos_part, neg_part}
use neuro_pipeline.Prelude.Text.{prefix}
use neuro_pipeline.Prelude.Search.{Pattern, search_in, text_length}
use neuro_pipeline.Pipeline.VlmData.{
  ConfigAdjustmentType, detection_region, sensitivity, fps, focus_area,
}
use neuro_pipeline.Inference.ConfigGuide.Keywords.{
  region_keywords, sensitivity_keywords, fps_keywords,
}
use neuro_pipeline.Inference.ConfigGuide.Regions.{
  DetectionRegion, Regex, extract_region, IsWithin, Holds, Holds-if, extract_region-IsWithin,
}
use neuro_pipeline.Inference.ConfigGuide.{
  ConfigAdjustment, ConfigGuide, with_region, region_adjustment, sensitivity_adjustment,
  fps_adjustment, or_else, enabled, parse_recommendation, keep_confident, parse_all, guidance,
  extract_recommendations, parse_vlm_result, extract_sensitivity_delta, extract_fps_delta,
}

-- The kinds that the guide is allowed to use.
unfoldable pub IsEnabled : ConfigGuide → ConfigAdjustmentType → Type 0
IsEnabled g detection_region = g.enable_region_adjustment ≡ true
IsEnabled g sensitivity = g.enable_sensitivity_adjustment ≡ true
IsEnabled g fps = g.enable_fps_adjustment ≡ true
IsEnabled g focus_area = ⊥

-- A region lies in the frame, the sensitivity moves by 0.05 and the frame rate by 5 at most, and the
-- reason has 200 characters at most.
pub record IsBounded (a : ConfigAdjustment) : Type 0 where
  pub region : Holds IsWithin a.region
  pub more_sensitive : pos_part a.sensitivity_delta ≤ 5
  pub less_sensitive : neg_part a.sensitivity_delta ≤ 5
  pub faster : pos_part a.fps_delta ≤ 5
  pub slower : neg_part a.fps_delta ≤ 5
  pub reason : text_length a.reason ≤ 200

pub record IsSafe (g : ConfigGuide) (a : ConfigAdjustment) : Type 0 where
  pub confident : g.min_confidence ≤ a.confidence
  pub is_enabled : IsEnabled g a.adjustment_type
  pub bounded : IsBounded a

text_length-prefix : (n : ℕ) (s : String) → text_length (prefix n s) ≤ n
unfolding text_length prefix
text_length-prefix zero s = omega arith
text_length-prefix (suc n) String.[] = omega arith
text_length-prefix (suc n) (String.◌∷◌ c s) = omega (arith, text_length-prefix n s)

abbrev IsSmall : ℤ → Type 0
IsSmall d = (pos_part d ≤ 5) × (neg_part d ≤ 5)

one_of_three : (b c : Bool) → IsSmall (if b then pos 5 else if c then negsuc 4 else pos 0)
one_of_three true c = omega arith
one_of_three false true = omega arith
one_of_three false false = omega arith

extract_sensitivity_delta-IsSmall : (s : String) → IsSmall (extract_sensitivity_delta s)
unfolding extract_sensitivity_delta
extract_sensitivity_delta-IsSmall s = one_of_three _ _

extract_fps_delta-IsSmall : (s : String) → IsSmall (extract_fps_delta s)
unfolding extract_fps_delta
extract_fps_delta-IsSmall s = one_of_three _ _

abbrev IsFound : ConfigAdjustmentType → ConfigAdjustment → Type 0
IsFound kind a = (a.adjustment_type ≡ kind) × IsBounded a

module _ (re : Regex) (rec : String) where
  with_region-IsFound :
      (o : Option DetectionRegion) (later : Option ConfigAdjustment)
      → Holds IsWithin o
      → Holds (IsFound detection_region) later
      → Holds (IsFound detection_region) (with_region rec o later)
  unfolding with_region
  with_region-IsFound none later h k = k
  with_region-IsFound (some r) later h k = (
    refl,
    record {
      region = h;
      more_sensitive = omega arith;
      less_sensitive = omega arith;
      faster = omega arith;
      slower = omega arith;
      reason = text_length-prefix 200 rec;
    },
  )

  region_adjustment-IsFound :
      (ps : List Pattern) → Holds (IsFound detection_region) (region_adjustment re rec ps)
  unfolding region_adjustment
  region_adjustment-IsFound [] = tt
  region_adjustment-IsFound (p ∷ ps) =
      let later = region_adjustment-IsFound ps in
      Holds-if (IsFound detection_region) (search_in p (re.lower rec)) _ _
        (with_region-IsFound (extract_region re (re.lower rec)) _
          (extract_region-IsWithin re (re.lower rec)) later)
        later

  sensitivity_adjustment-IsFound :
      (ps : List Pattern) → Holds (IsFound sensitivity) (sensitivity_adjustment re rec ps)
  unfolding sensitivity_adjustment
  sensitivity_adjustment-IsFound [] = tt
  sensitivity_adjustment-IsFound (p ∷ ps) =
      let small = extract_sensitivity_delta-IsSmall (re.lower rec) in
      Holds-if (IsFound sensitivity) (search_in p (re.lower rec)) (some _) _
        (
          refl,
          record {
            region = tt;
            more_sensitive = small.0;
            less_sensitive = small.1;
            faster = omega arith;
            slower = omega arith;
            reason = text_length-prefix 200 rec;
          },
        )
        (sensitivity_adjustment-IsFound ps)

  fps_adjustment-IsFound : (ps : List Pattern) → Holds (IsFound fps) (fps_adjustment re rec ps)
  unfolding fps_adjustment
  fps_adjustment-IsFound [] = tt
  fps_adjustment-IsFound (p ∷ ps) =
      let small = extract_fps_delta-IsSmall (re.lower rec) in
      Holds-if (IsFound fps) (search_in p (re.lower rec)) (some _) _
        (
          refl,
          record {
            region = tt;
            more_sensitive = omega arith;
            less_sensitive = omega arith;
            faster = small.0;
            slower = small.1;
            reason = text_length-prefix 200 rec;
          },
        )
        (fps_adjustment-IsFound ps)

module _ (g : ConfigGuide) (re : Regex) where
  abbrev IsAllowed : ConfigAdjustment → Type 0
  IsAllowed a = IsEnabled g a.adjustment_type × IsBounded a

  enabled-IsAllowed :
      (b : Bool) (kind : ConfigAdjustmentType) (o : Option ConfigAdjustment)
      → (b ≡ true → IsEnabled g kind)
      → Holds (IsFound kind) o
      → Holds IsAllowed (enabled b o)
  unfolding enabled
  enabled-IsAllowed true kind none h k = tt
  enabled-IsAllowed true kind (some a) h k = (rw (k.0) (h refl), k.1)
  enabled-IsAllowed false kind o h k = tt

  or_else-IsAllowed :
      (o p : Option ConfigAdjustment)
      → Holds IsAllowed o
      → Holds IsAllowed p
      → Holds IsAllowed (or_else o p)
  unfolding or_else
  or_else-IsAllowed none p h k = k
  or_else-IsAllowed (some a) p h k = h

  parse_recommendation-IsAllowed : (rec : String) → Holds IsAllowed (parse_recommendation re rec g)
  unfolding parse_recommendation IsEnabled
  parse_recommendation-IsAllowed rec =
      or_else-IsAllowed _ _
        (enabled-IsAllowed g.enable_region_adjustment detection_region _ (λ e. e)
          (region_adjustment-IsFound re rec region_keywords))
        (or_else-IsAllowed _ _
          (enabled-IsAllowed g.enable_sensitivity_adjustment sensitivity _ (λ e. e)
            (sensitivity_adjustment-IsFound re rec sensitivity_keywords))
          (enabled-IsAllowed g.enable_fps_adjustment fps _ (λ e. e)
            (fps_adjustment-IsFound re rec fps_keywords)))

  keep_confident-IsSafe :
      (o : Option ConfigAdjustment)
      → Holds IsAllowed o
      → All (IsSafe g) (keep_confident g o) × (length (keep_confident g o) ≤ 1)
  unfolding keep_confident
  keep_confident-IsSafe none h = (tt, omega arith)
  keep_confident-IsSafe (some a) h = elim (Bool-cases (leb g.min_confidence a.confidence)) [
    | inl e ↦
        rw e
          ((record { confident = leb→le _ _ e; is_enabled = h.0; bounded = h.1 }, tt), omega arith)
    | inr e ↦ rw e (tt, omega arith)
  ]

  parse_all-IsSafe :
      (recs : List String)
      → All (IsSafe g) (parse_all re g recs) × (length (parse_all re g recs) ≤ length recs)
  unfolding parse_all
  parse_all-IsSafe [] = (tt, omega arith)
  parse_all-IsSafe (rec ∷ recs) =
      let first =
        keep_confident-IsSafe (parse_recommendation re rec g)
          (parse_recommendation-IsAllowed rec) in
      let rest = parse_all-IsSafe recs in
      (
        All-append (IsSafe g) (keep_confident g (parse_recommendation re rec g))
            (parse_all re g recs) first.0 rest.0,
        omega (
          arith,
          length-append (keep_confident g (parse_recommendation re rec g)) (parse_all re g recs),
          first.1,
          rest.1,
        ),
      )

  guidance-adjustments :
      (recs : List String) (adjustments : List ConfigAdjustment)
      → ((guidance recs adjustments).adjustments ≡ adjustments)
        × ((guidance recs adjustments).should_apply ≡ ltb 0 (length adjustments))
  unfolding guidance
  guidance-adjustments recs [] = (refl, refl)
  guidance-adjustments recs (a ∷ adjustments) = (refl, ground arith)

  -- Whatever the model writes and whatever the expressions capture, a result has at most
  -- `max_adjustments_per_result` adjustments, each of a kind that is enabled, with at least the least
  -- confidence, a region inside the frame, a sensitivity that moves by 0.05 at most, a frame rate that
  -- moves by 5 at most and a reason of 200 characters at most; and it is to be applied exactly if it
  -- has an adjustment.
  pub parse_vlm_result-IsSafe :
      (vlm_result : String)
      → All (IsSafe g) (parse_vlm_result re vlm_result g).adjustments
        × (length (parse_vlm_result re vlm_result g).adjustments ≤ g.max_adjustments_per_result)
        × ((parse_vlm_result re vlm_result g).should_apply
            ≡ ltb 0 (length (parse_vlm_result re vlm_result g).adjustments))
  unfolding parse_vlm_result
  parse_vlm_result-IsSafe vlm_result =
      let recs = extract_recommendations re vlm_result in
      let cut = take g.max_adjustments_per_result recs in
      let same = guidance-adjustments recs (parse_all re g cut) in
      let safe = parse_all-IsSafe cut in
      rw (same.0, same.1)
        (safe.0, omega (arith, length-take g.max_adjustments_per_result recs, safe.1), refl)
