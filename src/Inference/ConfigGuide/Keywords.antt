-- ===== src/Inference/ConfigGuide/Keywords.antt =====
-- The keywords of vlm_config_guide.py, as patterns.
use neuro_pipeline.Prelude.{String, List, [], ◌∷◌}
use neuro_pipeline.Prelude.Search.{Pattern}

abbrev the : List String
the = "the " ∷ "" ∷ []

abbrev sides : List String
sides = "upper" ∷ "lower" ∷ "left" ∷ "right" ∷ "center" ∷ []

-- `REGION_KEYWORDS`
abbrev pub region_keywords : List Pattern
region_keywords =
    (("focus on " ∷ [])
      ∷ the
      ∷ sides
      ∷ (" " ∷ [])
      ∷ ("area" ∷ "region" ∷ "corner" ∷ "portion" ∷ [])
      ∷ [])
    ∷ (("adjust " ∷ []) ∷ ("detection " ∷ "" ∷ []) ∷ ("region" ∷ []) ∷ [])
    ∷ (("change " ∷ []) ∷ the ∷ ("roi" ∷ "region of interest" ∷ []) ∷ [])
    ∷ (("ignore " ∷ []) ∷ the ∷ sides ∷ [])
    ∷ (("monitor " ∷ []) ∷ the ∷ sides ∷ [])
    ∷ (("move " ∷ []) ∷ the ∷ ("detection " ∷ []) ∷ ("area" ∷ "zone" ∷ "region" ∷ []) ∷ [])
    ∷ []

-- `SENSITIVITY_KEYWORDS`
abbrev pub sensitivity_keywords : List Pattern
sensitivity_keywords =
    (("increase " ∷ []) ∷ ("detection " ∷ "" ∷ []) ∷ ("sensitivity" ∷ []) ∷ [])
    ∷ (("decrease " ∷ []) ∷ ("detection " ∷ "" ∷ []) ∷ ("sensitivity" ∷ []) ∷ [])
    ∷ (("lower " ∷ []) ∷ the ∷ ("threshold" ∷ []) ∷ [])
    ∷ (("raise " ∷ []) ∷ the ∷ ("threshold" ∷ []) ∷ [])
    ∷ (("more sensitive" ∷ []) ∷ [])
    ∷ (("less sensitive" ∷ []) ∷ [])
    ∷ (("reduce false positives" ∷ []) ∷ [])
    ∷ (("catch more detections" ∷ []) ∷ [])
    ∷ []

-- `FPS_KEYWORDS`
abbrev pub fps_keywords : List Pattern
fps_keywords =
    (("increase " ∷ []) ∷ ("frame rate" ∷ "fps" ∷ []) ∷ [])
    ∷ (("decrease " ∷ []) ∷ ("frame rate" ∷ "fps" ∷ []) ∷ [])
    ∷ (("higher fps" ∷ []) ∷ [])
    ∷ (("lower fps" ∷ []) ∷ [])
    ∷ (("slow " ∷ []) ∷ ("down " ∷ "" ∷ []) ∷ ("the " ∷ []) ∷ ("capture" ∷ "stream" ∷ []) ∷ [])
    ∷ (("speed up " ∷ []) ∷ the ∷ ("capture" ∷ "stream" ∷ []) ∷ [])
    ∷ []
