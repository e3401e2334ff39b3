-- ===== src/Analytics/ReIdEngine/Best.antt =====
-- The best match that `register_feature` of reid_engine.py finds.
use neuro_pipeline.Prelude.{
  ℕ, ◌≡◌, refl, Bool, true, false, ◌&&◌, List, [], ◌∷◌, Option, none, some, All, arith, Bool-cases,
  inl, inr,
}
use mathlib.Core.List.{Mem, mem-cons_self, mem-cons_of_mem}
use neuro_pipeline.Prelude.Float.{Float, IsOrdered}
use neuro_pipeline.Analytics.ReIdEngine.{Feature, Seen, is_compared, cosine_similarity, best_match}

pub all_three : (a b c : Bool) → (a && (b && c)) ≡ true → (a ≡ true) × (b ≡ true) × (c ≡ true)
all_three a b c h = ground arith

not_all : (a b c : Bool) → ((a ≡ true) → (b ≡ true) → (c ≡ true) → ⊥) → (a && (b && c)) ≡ false
not_all a b c h = ground arith

true-not-false : (b : Bool) → b ≡ true → b ≡ false → ⊥
true-not-false b h g = ground arith

not_both : (a b c : Bool) → (a && (b && c)) ≡ false → a ≡ true → b ≡ true → c ≡ true → ⊥
not_both a b c e h g k = ground arith

all_mem :
    {A : Type 0} (Q : A → Type 0) (l all : List A)
    → ((x : A) → Mem x l → Mem x all)
    → All (λ x. Q x → Mem x all) l
all_mem Q [] all h = tt
all_mem Q (x ∷ l) all h =
    (λ u. h x mem-cons_self, all_mem Q l all (λ y m. h y (mem-cons_of_mem x m)))

-- A property of a feature that may be missing.
unfoldable pub HoldsOption : {W : Type 0} → (Feature W → Type 0) → Option (Feature W) → Type 0
HoldsOption P none = Unit
HoldsOption P (some e) = P e

module _ {W : Type 0} ⦃f : Float W⦄ (threshold : W) (window ts : ℕ) (q : Seen W) where
  -- A property of the entries that are compared, and of the best match so far, holds of the best
  -- match.
  pub best_match-Holds :
      (P : Feature W → Type 0) (es : List (Feature W)) (best : Option (Feature W)) (sim : W)
      → All (λ e. is_compared window ts q e ≡ true → P e) es
      → HoldsOption P best
      → HoldsOption P (best_match threshold window ts q es best sim).0
  unfolding best_match HoldsOption
  best_match-Holds P [] best sim h b = b
  best_match-Holds P (e ∷ es) best sim h b =
      let s = cosine_similarity q.feature_vector e.feature_vector in
      let c = is_compared window ts q e in
      elim (Bool-cases (c && (f.le threshold s && f.lt sim s))) [
        | inl better ↦
            rw (better, HoldsOption)
              (best_match-Holds P es (some e) s h.1
                (h.0 (all_three c (f.le threshold s) (f.lt sim s) better).0))
        | inr worse ↦ rw (worse, HoldsOption) (best_match-Holds P es best sim h.1 b)
      ]

module _ {W : Type 0} ⦃f : Float W⦄ ⦃o : IsOrdered W⦄ (threshold : W) (window ts : ℕ)
    (q : Seen W) where
  -- An entry that may be matched, with a similarity to the feature of at least the threshold.
  pub record Matches (e : Feature W) (sim : W) : Type 0 where
    pub compared : is_compared window ts q e ≡ true
    pub similarity : cosine_similarity q.feature_vector e.feature_vector ≡ sim
    pub above : f.le threshold sim ≡ true

  -- No such entry of a list is more alike than `sim`.
  pub record IsBelow (sim : W) (e : Feature W) : Type 0 where
    pub below :
        (is_compared window ts q e
          && (f.le threshold (cosine_similarity q.feature_vector e.feature_vector)
              && f.lt sim (cosine_similarity q.feature_vector e.feature_vector)))
        ≡ false

  pub MatchesOption : Option (Feature W) → W → Type 0
  MatchesOption none sim = sim ≡ f.of_nat 0
  MatchesOption (some e) sim = Matches e sim

  -- A part of the loop that starts from this best match.
  record IsBest (es : List (Feature W)) (start : W) (r : Option (Feature W) × W) : Type 0 where
    matched : MatchesOption r.0 r.1
    kept : (x : W) → f.lt r.1 x ≡ true → f.lt start x ≡ true
    below : All (IsBelow r.1) es

  best_match-IsBest :
      (es : List (Feature W)) (best : Option (Feature W)) (sim : W)
      → MatchesOption best sim
      → IsBest es sim (best_match threshold window ts q es best sim)
  unfolding best_match MatchesOption
  best_match-IsBest [] best sim h = record { matched = h; kept = λ x l. l; below = tt }
  best_match-IsBest (e ∷ es) best sim h =
      let s = cosine_similarity q.feature_vector e.feature_vector in
      let c = is_compared window ts q e in
      elim (Bool-cases (c && (f.le threshold s && f.lt sim s))) [
        | inl better ↦
            let (compared, above, more_alike) = all_three c _ _ better in
            let more =
              best_match-IsBest es (some e) s
                (record { compared = compared; similarity = refl; above = above }) in
            rw better (record {
              matched = more.matched;
              kept = λ x l. o.lt_trans sim s x more_alike (more.kept x l);
              below = (
                record {
                  below = not_all c _ _ (λ a b l. true-not-false _ (more.kept s l) (o.lt_irrefl s));
                },
                more.below,
              );
            })
        | inr worse ↦
            let more = best_match-IsBest es best sim h in
            rw worse (record {
              matched = more.matched;
              kept = more.kept;
              below = (
                record {
                  below = not_all c _ _ (λ a b l. not_both c _ _ worse a b (more.kept s l));
                },
                more.below,
              );
            })
      ]

  -- The best match, if there is one, is an entry of the store that may be matched: of another device,
  -- of the same class, inside the time window, and alike by at least the threshold. No other such
  -- entry is more alike. If there is none, no such entry has a similarity above 0. The order of the
  -- numbers is irreflexive and transitive, as it is with NaN.
  pub best_match_lem :
      (es : List (Feature W))
      → let r = best_match threshold window ts q es none (f.of_nat 0) in
        HoldsOption (λ e. Mem e es) r.0 × MatchesOption r.0 r.1 × All (IsBelow r.1) es
  unfolding HoldsOption MatchesOption
  best_match_lem es =
      let best = best_match-IsBest es none (f.of_nat 0) refl in
      (
        best_match-Holds threshold window ts q (λ e. Mem e es) es none (f.of_nat 0)
            (all_mem (λ e. is_compared window ts q e ≡ true) es es (λ x m. m)) tt,
        best.matched,
        best.below,
      )
