-- ===== src/Observability/Alerting/Cooldown.antt =====
-- When alerting.py fires.
use neuro_pipeline.Prelude.{
  ℕ, ◌+◌, ◌≤◌, ◌≡◌, refl, sym, ap, ◌∙◌, String, true, ◌&&◌, List, [], ◌∷◌, Option, none, some,
  str_eq, eq_iff, ltb, if◌then◌else◌, Bool-cases, inl, inr, arith,
}
use neuro_pipeline.Prelude.Dict.{get}
use neuro_pipeline.Observability.Alerting.{
  AlertManager, AlertRule, Posted, Answer, check_and_fire, fire, cooling_down,
}
use neuro_pipeline.Observability.Alerting.Check.{
  is_fired, if_true, if_false, check-cooling, check-fires, fire-Kept, check-Kept, fire-is_fired,
  fire-last,
}

-- The times at which an event type fires while checks of any types are made.
pub firings : (String → Posted) → String → List (ℕ × String) → AlertManager → List ℕ
unfolding is_fired
firings post e [] m = []
firings post e ((now, kind) ∷ checks) m =
    let step = check_and_fire post now kind m in
    let rest = firings post e checks step.0 in
    if str_eq kind e && is_fired step.1 then now ∷ rest else rest

-- The times of the checks of one event type.
unfoldable pub times_of : String → List (ℕ × String) → List ℕ
times_of e [] = []
times_of e ((now, kind) ∷ checks) =
    let rest = times_of e checks in if str_eq kind e then now ∷ rest else rest

-- Of a list of times, the first one, and then each that is at least the cooldown after the one that
-- was taken last.
unfoldable pub spaced : ℕ → Option ℕ → List ℕ → List ℕ
spaced cooldown last [] = []
spaced cooldown last (t ∷ ts) =
    let skipped = spaced cooldown last ts in
    let taken = t ∷ spaced cooldown (some t) ts in
    if cooling_down cooldown t last then skipped else taken

-- Each time is at least the cooldown after the one before it.
unfoldable pub IsSpaced : ℕ → Option ℕ → List ℕ → Type 0
IsSpaced cooldown last [] = Unit
IsSpaced cooldown none (t ∷ ts) = IsSpaced cooldown (some t) ts
IsSpaced cooldown (some last) (t ∷ ts) = (last + cooldown ≤ t) × IsSpaced cooldown (some t) ts

spaced-IsSpaced :
    (cooldown : ℕ) (last : Option ℕ) (ts : List ℕ)
    → IsSpaced cooldown last (spaced cooldown last ts)
unfolding spaced IsSpaced cooling_down
spaced-IsSpaced cooldown none [] = tt
spaced-IsSpaced cooldown (some last) [] = tt
spaced-IsSpaced cooldown none (t ∷ ts) = spaced-IsSpaced cooldown (some t) ts
spaced-IsSpaced cooldown (some last) (t ∷ ts) = elim (Bool-cases (ltb t (last + cooldown))) [
  | inl e ↦ rw e (spaced-IsSpaced cooldown (some last) ts)
  | inr e ↦
      let apart : last + cooldown ≤ t = ground arith in
      rw e (apart, spaced-IsSpaced cooldown (some t) ts)
]

module _ (post : String → Posted) (e : String) (rule : AlertRule) where
  -- What is fired at one check and after it.
  abbrev after : ℕ → List (ℕ × String) → AlertManager × Answer → List ℕ
  after now checks p =
      if is_fired p.1 then now ∷ firings post e checks p.0 else firings post e checks p.0

  firings-spaced :
      (checks : List (ℕ × String)) (m : AlertManager)
      → m.enabled ≡ true
      → get e m.rules ≡ some rule
      → firings post e checks m
        ≡ spaced rule.cooldown_seconds (get e m.last_fired) (times_of e checks)
  unfolding firings spaced times_of is_fired
  firings-spaced [] m on h = refl
  firings-spaced ((now, kind) ∷ checks) m on h = elim (Bool-cases (str_eq kind e)) [
    | inr other ↦
        let kept = check-Kept post now kind m in
        let m' = (check_and_fire post now kind m).0 in
        let rest =
          firings-spaced checks m' (kept.enabled ∙ on) (ap (λ r. get e r) kept.rules ∙ h) in
        rw other (
          rest ∙ ap (λ l. spaced rule.cooldown_seconds l (times_of e checks)) (kept.others e other))
    | inl this ↦
        let same_kind : kind ≡ e = (eq_iff kind e).0 this in
        rw (this, same_kind)
          (elim (Bool-cases (cooling_down rule.cooldown_seconds now (get e m.last_fired))) [
            | inl cools ↦
                ap (after now checks) (check-cooling post now e rule m on h cools)
                ∙ firings-spaced checks m on h
                ∙ sym (
                    if_true (cooling_down rule.cooldown_seconds now (get e m.last_fired)) _ _ cools)
            | inr ready ↦
                let m' = (fire post now e rule m).0 in
                let kept = fire-Kept post now e rule m in
                let rest =
                  firings-spaced checks m' (kept.enabled ∙ on) (ap (λ r. get e r) kept.rules ∙ h) in
                let last =
                  ap (λ l. spaced rule.cooldown_seconds l (times_of e checks))
                    (fire-last post now e rule m) in
                ap (after now checks) (check-fires post now e rule m on h ready)
                ∙ if_true (is_fired (fire post now e rule m).1) (now ∷ firings post e checks m')
                    (firings post e checks m') (fire-is_fired post now e rule m)
                ∙ ap (◌∷◌ now) (rest ∙ last)
                ∙ sym (
                    if_false (cooling_down rule.cooldown_seconds now (get e m.last_fired)) _ _
                      ready)
          ])
  ]

  -- An enabled manager that has a rule for an event type fires it at exactly these of its checks: the
  -- first, if it has not fired before, and then each that comes at least the cooldown after the last
  -- one that fired. So two alerts of one type are at least the cooldown apart, and checks of other
  -- types and failures of the webhook make no difference.
  pub firings-IsSpaced :
      (checks : List (ℕ × String)) (m : AlertManager)
      → m.enabled ≡ true
      → get e m.rules ≡ some rule
      → let last = get e m.last_fired in
        (firings post e checks m ≡ spaced rule.cooldown_seconds last (times_of e checks))
        × IsSpaced rule.cooldown_seconds last (firings post e checks m)
  firings-IsSpaced checks m on h =
      let exact = firings-spaced checks m on h in
      (
        exact,
        rw exact (spaced-IsSpaced rule.cooldown_seconds (get e m.last_fired) (times_of e checks)),
      )
