-- ===== src/Inference/ConfigGuide/Regions.antt =====
-- The regions of vlm_config_guide.py: their bounds, and how a text gives one.
use neuro_pipeline.Prelude.{
  [], true, false, ◌≤◌, arith, ℕ, String, Bool, ◌&&◌, ◌||◌, List, ◌∷◌, Option, none, some, ◌==◌,
  min, max, if◌then◌else◌,
}
use neuro_pipeline.Prelude.Search.{includes}

-- 1.0
abbrev pub unit : ℕ
unit = 10_000

pub record DetectionRegion : Type 0 where
  pub x_min : ℕ
  pub y_min : ℕ
  pub x_max : ℕ
  pub y_max : ℕ

abbrev pub full_frame : DetectionRegion
full_frame = record { x_min = 0; y_min = 0; x_max = unit; y_max = unit }

pub clamp : DetectionRegion → DetectionRegion
clamp r = record {
  x_min = max 0 (min unit r.x_min);
  y_min = max 0 (min unit r.y_min);
  x_max = max 0 (min unit r.x_max);
  y_max = max 0 (min unit r.y_max);
}

-- What the regular expression engine captures and how it lowers texts.
pub record Regex : Type 0 where
  pub findall : String → String → List String
  pub numbers : String → List ℕ
  pub lower : String → String

-- The directional keywords, each of which overwrites some of the bounds.
vertical : String → DetectionRegion → DetectionRegion
vertical s r =
    let upper =
      if includes "upper" s || includes "top" s then record r { y_min = 0; y_max = 5000 } else r in
    if includes "lower" s || includes "bottom" s
    then record upper { y_min = 5000; y_max = unit }
    else upper

horizontal : String → DetectionRegion → DetectionRegion
horizontal s r =
    let left = if includes "left" s then record r { x_min = 0; x_max = 5000 } else r in
    if includes "right" s then record left { x_min = 5000; x_max = unit } else left

pub directional : String → DetectionRegion
unfolding vertical horizontal
directional s =
    if includes "center" s || includes "middle" s
    then record { x_min = 2500; y_min = 2500; x_max = 7500; y_max = 7500 }
    else horizontal s (vertical s full_frame)

-- `region != DetectionRegion()`
pub is_full_frame : DetectionRegion → Bool
is_full_frame r = (r.x_min == 0) && (r.y_min == 0) && (r.x_max == unit) && (r.y_max == unit)

numeric_region : List ℕ → Option DetectionRegion
unfolding clamp
numeric_region (a ∷ b ∷ c ∷ d ∷ rest) =
    some (clamp (record { x_min = a; y_min = b; x_max = c; y_max = d }))
numeric_region _ = none

unfoldable pub extract_region : Regex → String → Option DetectionRegion
unfolding directional is_full_frame clamp numeric_region
extract_region re s =
    if is_full_frame (directional s)
    then numeric_region (re.numbers s)
    else some (clamp (directional s))

abbrev pub IsWithin : DetectionRegion → Type 0
IsWithin r = (r.x_min ≤ unit) × (r.y_min ≤ unit) × (r.x_max ≤ unit) × (r.y_max ≤ unit)

abbrev pub Holds {ℓ} : {A : Type ℓ} → (A → Type 0) → Option A → Type 0
Holds P none = Unit
Holds P (some a) = P a

clamp-IsWithin : (r : DetectionRegion) → IsWithin (clamp r)
unfolding clamp
clamp-IsWithin r = omega arith

numeric_region-IsWithin : (ns : List ℕ) → Holds IsWithin (numeric_region ns)
unfolding numeric_region
numeric_region-IsWithin [] = tt
numeric_region-IsWithin (a ∷ []) = tt
numeric_region-IsWithin (a ∷ b ∷ []) = tt
numeric_region-IsWithin (a ∷ b ∷ c ∷ []) = tt
numeric_region-IsWithin (a ∷ b ∷ c ∷ d ∷ rest) = clamp-IsWithin _

pub Holds-if {ℓ} :
    {A : Type ℓ} (P : A → Type 0) (b : Bool) (x y : Option A)
    → Holds P x
    → Holds P y
    → Holds P (if b then x else y)
Holds-if P true x y h k = h
Holds-if P false x y h k = k

pub extract_region-IsWithin : (re : Regex) (s : String) → Holds IsWithin (extract_region re s)
unfolding extract_region
extract_region-IsWithin re s =
    Holds-if IsWithin (is_full_frame (directional s)) (numeric_region (re.numbers s))
      (some (clamp (directional s))) (numeric_region-IsWithin (re.numbers s))
      (clamp-IsWithin (directional s))
