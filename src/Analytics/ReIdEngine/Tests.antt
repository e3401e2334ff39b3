-- ===== src/Analytics/ReIdEngine/Tests.antt =====
-- Runs of reid_engine.py, with natural numbers as features and unary track numbers.
use neuro_pipeline.Prelude.{ℕ, zero, suc, ◌≡◌, refl, sym, ◌∙◌, ap, String, List, [], ◌∷◌, none, All}
use mathlib.Core.List.{Mem}
use neuro_pipeline.Prelude.Float.{naturals, naturals-IsOrdered}
use neuro_pipeline.Analytics.ReIdEngine.{Feature, Seen, best_match, register_feature, init}
use neuro_pipeline.Analytics.ReIdEngine.Best.{HoldsOption, MatchesOption, IsBelow, best_match_lem}
use neuro_pipeline.Analytics.ReIdEngine.Tracks.{
  IsRegistered, init-IsLinked, register_feature-IsRegistered,
}

-- Track names of growing length.
unary : ℕ → String
unary zero = ""
unary (suc n) = String.◌∷◌ "x" (unary n)

size : String → ℕ
size String.[] = 0
size (String.◌∷◌ c s) = suc (size s)

size-unary : (n : ℕ) → size (unary n) ≡ n
unfolding size unary
size-unary zero = refl
size-unary (suc n) = ap suc (size-unary n)

unary-injective : (i j : ℕ) → unary i ≡ unary j → i ≡ j
unary-injective i j e = sym (size-unary i) ∙ ap size e ∙ size-unary j

abbrev seen : Seen ℕ
seen = record { device_id = "b"; class_name = "cat"; feature_vector = 1 ∷ []; timestamp = 7 }

abbrev stored : List (Feature ℕ)
stored =
    record {
      device_id = "a";
      class_name = "cat";
      feature_vector = 1 ∷ [];
      timestamp = 5;
      track_id = "x";
    }
    ∷ []

best_match_lem_example :
    let r = best_match 1 10 7 seen stored none 0 in
    HoldsOption (λ e. Mem e stored) r.0
    × MatchesOption ⦃o = naturals-IsOrdered⦄ 1 10 7 seen r.0 r.1
    × All (IsBelow ⦃o = naturals-IsOrdered⦄ 1 10 7 seen r.1) stored
best_match_lem_example = best_match_lem ⦃o = naturals-IsOrdered⦄ 1 10 7 seen stored

register_feature-IsRegistered_example :
    IsRegistered unary seen (init 1 10) (register_feature unary 7 seen (init 1 10))
register_feature-IsRegistered_example =
    register_feature-IsRegistered unary 7 seen (init 1 10) unary-injective
      (init-IsLinked unary 1 10)
