-- ===== src/Observability/Alerting/Check.antt =====
-- One check of alerting.py, and whether it fires.
use neuro_pipeline.Prelude.{
  ℕ, ◌≡◌, refl, ap, ◌∙◌, String, Bool, true, false, Option, none, some, str_eq, eq_iff,
  if◌then◌else◌, Bool-cases, inl, inr,
}
use neuro_pipeline.Prelude.Dict.{get, get-put}
use neuro_pipeline.Observability.Alerting.{
  AlertManager, AlertRule, Posted, returned, os_error, other_error, get_webhook_url, Answer, quiet,
  fired, raised, check_and_fire, check_rule, fire, notify, post_webhook, cooling_down,
}

-- An alert that was fired is logged, also if the webhook then raises.
unfoldable pub is_fired : Answer → Bool
is_fired quiet = false
is_fired fired = true
is_fired raised = true

posted : (p : Posted) → is_fired (post_webhook p) ≡ true
unfolding is_fired post_webhook
posted returned = refl
posted os_error = refl
posted other_error = refl

module _ {A : Type 0} where
  pub if_true : (b : Bool) (x y : A) → b ≡ true → (if b then x else y) ≡ x
  if_true b x y h = rw h refl

  pub if_false : (b : Bool) (x y : A) → b ≡ false → (if b then x else y) ≡ y
  if_false b x y h = rw h refl

module _ (post : String → Posted) (now : ℕ) where
  check-rule :
      (e : String) (rule : AlertRule) (m : AlertManager)
      → m.enabled ≡ true
      → get e m.rules ≡ some rule
      → check_and_fire post now e m ≡ check_rule post now e (some rule) m
  unfolding check_and_fire
  check-rule e rule m on h =
      if_true m.enabled (check_rule post now e (get e m.rules) m) (m, quiet) on
      ∙ ap (λ o. check_rule post now e o m) h

  pub check-cooling :
      (e : String) (rule : AlertRule) (m : AlertManager)
      → m.enabled ≡ true
      → get e m.rules ≡ some rule
      → cooling_down rule.cooldown_seconds now (get e m.last_fired) ≡ true
      → check_and_fire post now e m ≡ (m, quiet)
  unfolding check_rule
  check-cooling e rule m on h cools =
      check-rule e rule m on h
      ∙ if_true (cooling_down rule.cooldown_seconds now (get e m.last_fired)) (m, quiet)
          (fire post now e rule m) cools

  pub check-fires :
      (e : String) (rule : AlertRule) (m : AlertManager)
      → m.enabled ≡ true
      → get e m.rules ≡ some rule
      → cooling_down rule.cooldown_seconds now (get e m.last_fired) ≡ false
      → check_and_fire post now e m ≡ fire post now e rule m
  unfolding check_rule
  check-fires e rule m on h ready =
      check-rule e rule m on h
      ∙ if_false (cooling_down rule.cooldown_seconds now (get e m.last_fired)) (m, quiet)
          (fire post now e rule m) ready

  -- The rules and the switch stay, and so does the time of another event type.
  pub record Kept (kind : String) (m m' : AlertManager) : Type 0 where
    pub rules : m'.rules ≡ m.rules
    pub enabled : m'.enabled ≡ m.enabled
    pub others : (e : String) → str_eq kind e ≡ false → get e m'.last_fired ≡ get e m.last_fired

  same : (kind : String) (m : AlertManager) → Kept kind m m
  same kind m = record { rules = refl; enabled = refl; others = λ e other. refl }

  pub fire-Kept :
      (kind : String) (rule : AlertRule) (m : AlertManager)
      → Kept kind m (fire post now kind rule m).0
  unfolding fire
  fire-Kept kind rule m = record {
    rules = refl;
    enabled = refl;
    others = λ e other. rw (get-put kind e now m.last_fired, other) refl;
  }

  if-Kept :
      (b : Bool) (kind : String) (m : AlertManager) (p q : AlertManager × Answer)
      → Kept kind m p.0
      → Kept kind m q.0
      → Kept kind m (if b then p else q).0
  if-Kept true kind m p q h k = h
  if-Kept false kind m p q h k = k

  check_rule-Kept :
      (kind : String) (o : Option AlertRule) (m : AlertManager)
      → Kept kind m (check_rule post now kind o m).0
  unfolding check_rule
  check_rule-Kept kind none m = same kind m
  check_rule-Kept kind (some rule) m =
      if-Kept (cooling_down rule.cooldown_seconds now (get kind m.last_fired)) kind m (m, quiet)
        (fire post now kind rule m) (same kind m) (fire-Kept kind rule m)

  pub check-Kept :
      (kind : String) (m : AlertManager) → Kept kind m (check_and_fire post now kind m).0
  unfolding check_and_fire
  check-Kept kind m =
      if-Kept m.enabled kind m (check_rule post now kind (get kind m.rules) m) (m, quiet)
        (check_rule-Kept kind (get kind m.rules) m) (same kind m)

  pub fire-is_fired :
      (e : String) (rule : AlertRule) (m : AlertManager)
      → is_fired (fire post now e rule m).1 ≡ true
  unfolding fire notify is_fired
  fire-is_fired e rule m = went_off (get_webhook_url rule.severity m)
    where
      went_off : (url : String) → is_fired (notify post url) ≡ true
      went_off url = elim (Bool-cases (str_eq url "")) [
        | inl e ↦ rw e refl
        | inr e ↦ rw e (posted (post url))
      ]

  pub fire-last :
      (e : String) (rule : AlertRule) (m : AlertManager)
      → get e (fire post now e rule m).0.last_fired ≡ some now
  unfolding fire
  fire-last e rule m = rw (get-put e e now m.last_fired, (eq_iff e e).1 refl) refl
