-- ===== src/ModelManagement/AbTest/Groups.antt =====
-- The groups of the devices in ab_test_manager.py.
use neuro_pipeline.Prelude.{
  ℕ, ◌≡◌, refl, ap, ◌∙◌, String, Bool, List, [], ◌∷◌, some, str_eq, eq_iff, Bool-cases,
  Option-cases, inl, inr, arith,
}
use neuro_pipeline.Prelude.Dict.{Dict, get, put, get-put}
use neuro_pipeline.ModelManagement.AbTest.{
  AbGroup, control, treatment, variant_of, get_variant, AbTestManager, VariantMetrics, assign_group,
  get_group, draw_group, record_inference, record_detection, change,
}

-- The calls that can come between two questions about a device.
pub data Call : Type 0 where
  assigned : ℕ → String → Call
  inferred : String → ℕ → Call
  detected : String → Bool → Call

pub apply : Call → AbTestManager → AbTestManager
apply (assigned draw device_id) m = (assign_group draw device_id m).0
apply (inferred variant latency) m = record_inference variant latency m
apply (detected variant correct) m = record_detection variant correct m

pub run : List Call → AbTestManager → AbTestManager
unfolding apply
run [] m = m
run (c ∷ cs) m = run cs (apply c m)

change-groups :
    (variant : String) (f : VariantMetrics → VariantMetrics) (m : AbTestManager)
    → (change variant f m).device_groups ≡ m.device_groups
unfolding change
change-groups variant f m = elim (Option-cases (get variant m.metrics)) [
  | inl e ↦ rw (e, change) refl
  | inr (v, e) ↦ rw (e, change) refl
]

pub assign_group-found :
    (draw : ℕ) (d : String) (g : AbGroup) (m : AbTestManager)
    → get d m.device_groups ≡ some g
    → assign_group draw d m ≡ (m, g)
unfolding assign_group
assign_group-found draw d g m e = rw (e, assign_group) refl

assign_group-groups :
    (draw : ℕ) (i d : String) (g : AbGroup) (m : AbTestManager)
    → get d m.device_groups ≡ some g
    → get d (assign_group draw i m).0.device_groups ≡ some g
unfolding assign_group
assign_group-groups draw i d g m h = elim (Option-cases (get i m.device_groups)) [
  | inr (g', e) ↦ rw (e, assign_group) h
  | inl e ↦ elim (Bool-cases (str_eq i d)) [
    | inl s ↦ let same : i ≡ d = (eq_iff i d).0 s in absurd (ground (arith, rw same at e))
    | inr s ↦
        let kept : get d (put i (draw_group draw m) m.device_groups) ≡ some g =
          rw (get-put i d (draw_group draw m) m.device_groups, s) h in
        rw (e, assign_group) kept
  ]
]

apply-groups :
    (c : Call) (d : String) (g : AbGroup) (m : AbTestManager)
    → get d m.device_groups ≡ some g
    → get d (apply c m).device_groups ≡ some g
unfolding apply record_inference record_detection
apply-groups (assigned draw i) d g m h = assign_group-groups draw i d g m h
apply-groups (inferred variant latency) d g m h = rw (change-groups variant _ m) h
apply-groups (detected variant correct) d g m h = rw (change-groups variant _ m) h

run-groups :
    (cs : List Call) (d : String) (g : AbGroup) (m : AbTestManager)
    → get d m.device_groups ≡ some g
    → get d (run cs m).device_groups ≡ some g
unfolding run
run-groups [] d g m h = h
run-groups (c ∷ cs) d g m h = run-groups cs d g (apply c m) (apply-groups c d g m h)

pub assign_group-known :
    (draw : ℕ) (d : String) (m : AbTestManager)
    → get d (assign_group draw d m).0.device_groups ≡ some (assign_group draw d m).1
unfolding assign_group
assign_group-known draw d m = elim (Option-cases (get d m.device_groups)) [
  | inr (g, e) ↦ rw (e, assign_group) e
  | inl e ↦
      let put_there : get d (put d (draw_group draw m) m.device_groups) ≡ some (draw_group draw m) =
        rw (get-put d d (draw_group draw m) m.device_groups, (eq_iff d d).1 refl) refl in
      rw (e, assign_group) put_there
]

variant_of-groups :
    (g : AbGroup) (groups : Dict AbGroup) (m : AbTestManager)
    → variant_of g (record m { device_groups = groups }) ≡ variant_of g m
unfolding variant_of
variant_of-groups control groups m = refl
variant_of-groups treatment groups m = refl

pub assign_group-variant_of :
    (draw : ℕ) (d : String) (g : AbGroup) (m : AbTestManager)
    → variant_of g (assign_group draw d m).0 ≡ variant_of g m
unfolding assign_group
assign_group-variant_of draw d g m = elim (Option-cases (get d m.device_groups)) [
  | inr (g', e) ↦ rw (e, assign_group) refl
  | inl e ↦ rw (e, assign_group) (variant_of-groups g _ m)
]

-- Right after a device has its group, its variant is that of the group and nothing changes.
pub get_variant-assign_group :
    (draw : ℕ) (d : String) (m : AbTestManager)
    → let a = assign_group draw d m in get_variant draw d a.0 ≡ (a.0, variant_of a.1 m)
unfolding get_variant
get_variant-assign_group draw d m =
    let a = assign_group draw d m in
    ap (λ b. (b.0, variant_of b.1 a.0))
      (assign_group-found draw d a.1 a.0 (assign_group-known draw d m))
    ∙ ap (λ v. (a.0, v)) (assign_group-variant_of draw d a.1 m)

-- A device stays in its group: once a group was assigned to it, `get_group` gives this group and
-- `assign_group` gives it again, whatever number is drawn then, after any assignments of devices,
-- this one included, and any records of inferences and detections.
pub assign_group-run :
    (draw again : ℕ) (d : String) (cs : List Call) (m : AbTestManager)
    → let first = assign_group draw d m in
      let later = run cs first.0 in
      (get_group d later ≡ some first.1) × ((assign_group again d later).1 ≡ first.1)
unfolding get_group
assign_group-run draw again d cs m =
    let first = assign_group draw d m in
    let known = run-groups cs d first.1 first.0 (assign_group-known draw d m) in
    (known, ap (λ p. p.1) (assign_group-found again d first.1 (run cs first.0) known))
