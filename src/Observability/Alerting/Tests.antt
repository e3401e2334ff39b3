-- ===== src/Observability/Alerting/Tests.antt =====
-- Runs of alerting.py.
use neuro_pipeline.Prelude.{ℕ, ◌≡◌, refl, String, true, List, [], ◌∷◌, none}
use neuro_pipeline.Prelude.Dict.{get}
use neuro_pipeline.Observability.Alerting.{
  AlertManager, AlertRule, warning, Posted, other_error, raised, check_and_fire, get_webhook_url,
  cooling_down, fire, notify, check_rule, post_webhook,
}
use neuro_pipeline.Observability.Alerting.Cooldown.{
  firings, spaced, times_of, IsSpaced, firings-IsSpaced,
}

abbrev rule : AlertRule
rule = record { name = "queue"; cooldown_seconds = 10; severity = warning }

abbrev manager : AlertManager
manager = record {
  rules = ("queue", rule) ∷ [];
  webhook_url = "";
  enabled = true;
  last_fired = [];
  routes = record { severity = warning; webhook_url = "http://hook" } ∷ [];
}

-- The webhook raises an exception that is not caught.
abbrev post : String → Posted
post url = other_error

check_test : (check_and_fire post 5 "queue" manager).1 ≡ raised
unfolding check_and_fire check_rule fire notify post_webhook cooling_down get_webhook_url get
check_test = refl

abbrev checks : List (ℕ × String)
checks = (5, "queue") ∷ (8, "other") ∷ (14, "queue") ∷ (15, "queue") ∷ (30, "queue") ∷ []

firings-IsSpaced_example :
    (firings post "queue" checks manager ≡ 5 ∷ 15 ∷ 30 ∷ [])
    × IsSpaced 10 none (firings post "queue" checks manager)
unfolding spaced times_of cooling_down get
firings-IsSpaced_example = firings-IsSpaced post "queue" rule checks manager refl refl
