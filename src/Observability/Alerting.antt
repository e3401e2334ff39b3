-- ===== src/Observability/Alerting.antt =====
-- mac-central/src/observability/alerting.py: `AlertManager`. The post to a webhook is a call of httpx,
-- and its outcome is a parameter. Clock readings are arguments.
pub mod Check
pub mod Cooldown
mod Tests
use neuro_pipeline.Prelude.{
  ℕ, ◌+◌, String, Bool, true, false, not, List, [], ◌∷◌, Option, none, some, str_eq, ltb,
  if◌then◌else◌,
}
use neuro_pipeline.Prelude.Dict.{Dict, get, put}

pub data AlertSeverity : Type 0 where
  info warning critical : AlertSeverity

severity_eq : AlertSeverity → AlertSeverity → Bool
severity_eq info info = true
severity_eq warning warning = true
severity_eq critical critical = true
severity_eq info s = false
severity_eq warning s = false
severity_eq critical s = false

pub record AlertRoute : Type 0 where
  pub severity : AlertSeverity
  pub webhook_url : String

pub record AlertRule : Type 0 where
  pub name : String
  pub cooldown_seconds : ℕ
  pub severity : AlertSeverity

pub record AlertManager : Type 0 where
  pub rules : Dict AlertRule
  pub webhook_url : String
  pub enabled : Bool
  pub last_fired : Dict ℕ
  pub routes : List AlertRoute

-- `{r.name: r for r in rules}`
pub rules_by_name : List AlertRule → Dict AlertRule → Dict AlertRule
rules_by_name [] d = d
rules_by_name (r ∷ rs) d = rules_by_name rs (put r.name r d)

-- The dictionary of routes is kept as the list of its assignments, the last first.
pub assign_routes : List AlertRoute → List AlertRoute → List AlertRoute
assign_routes [] d = d
assign_routes (r ∷ rs) d = assign_routes rs (r ∷ d)

or_none : Option (List AlertRule) → List AlertRule
or_none none = []
or_none (some rs) = rs

or_no_routes : Option (List AlertRoute) → List AlertRoute
or_no_routes none = []
or_no_routes (some rs) = assign_routes rs []

pub init : Option (List AlertRule) → String → Bool → Option (List AlertRoute) → AlertManager
unfolding rules_by_name or_none or_no_routes
init rules webhook_url enabled routes = record {
  rules = rules_by_name (or_none rules) [];
  webhook_url = webhook_url;
  enabled = enabled;
  last_fired = [];
  routes = or_no_routes routes;
}

route_for : AlertSeverity → List AlertRoute → String → String
unfolding severity_eq
route_for s [] default = default
route_for s (r ∷ rs) default =
    let rest = route_for s rs default in if severity_eq r.severity s then r.webhook_url else rest

-- `_get_webhook_url`
pub get_webhook_url : AlertSeverity → AlertManager → String
unfolding route_for
get_webhook_url s m = route_for s m.routes m.webhook_url

pub update_rules : List AlertRule → Option (List AlertRoute) → AlertManager → AlertManager
unfolding rules_by_name assign_routes
update_rules rules none m = record m { rules = rules_by_name rules [] }
update_rules rules (some routes) m = record m {
  rules = rules_by_name rules [];
  routes = assign_routes routes [];
}

-- How the post ends: it returns, it raises one of the exceptions that `_post_webhook` catches, or it
-- raises another one.
pub data Posted : Type 0 where
  returned os_error other_error : Posted

-- What `check_and_fire` answers.
pub data Answer : Type 0 where
  quiet : Answer
  fired : Answer
  raised : Answer

pub post_webhook : Posted → Answer
post_webhook returned = fired
post_webhook os_error = fired
post_webhook other_error = raised

-- `event_type in self._last_fired and now - self._last_fired[event_type] < rule.cooldown_seconds`
unfoldable pub cooling_down : ℕ → ℕ → Option ℕ → Bool
cooling_down cooldown now none = false
cooling_down cooldown now (some last) = ltb now (last + cooldown)

pub notify : (String → Posted) → String → Answer
unfolding post_webhook
notify post url = if str_eq url "" then fired else post_webhook (post url)

pub fire : (String → Posted) → ℕ → String → AlertRule → AlertManager → AlertManager × Answer
unfolding notify
fire post now event_type rule m = (
  record m { last_fired = put event_type now m.last_fired },
  notify post (get_webhook_url rule.severity m),
)

pub check_rule :
    (String → Posted) → ℕ → String → Option AlertRule → AlertManager → AlertManager × Answer
unfolding fire cooling_down
check_rule post now event_type none m = (m, quiet)
check_rule post now event_type (some rule) m =
    if cooling_down rule.cooldown_seconds now (get event_type m.last_fired)
    then (m, quiet)
    else fire post now event_type rule m

pub check_and_fire : (String → Posted) → ℕ → String → AlertManager → AlertManager × Answer
unfolding check_rule
check_and_fire post now event_type m =
    if m.enabled then check_rule post now event_type (get event_type m.rules) m else (m, quiet)
