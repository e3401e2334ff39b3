-- ===== src/Core/Container/Cache.antt =====
-- The cache of container.py, and the order in which the services need each other.
use neuro_pipeline.Prelude.{
  ℕ, zero, suc, ◌≤◌, ◌<◌, ◌≡◌, refl, sym, ◌∙◌, ap, true, false, List, [], ◌∷◌, Option, none, some,
  All, arith, ◌==◌, Bool-cases, inl, inr,
}
use neuro_pipeline.Core.Container.{
  Name, store, session_manager, circuit_breaker, alert_manager, cloud_storage, behavior_analyzer,
  reasoning_chain, rag_retriever, anomaly_baseline, reid_engine, timeseries_engine, auto_annotator,
  report_generator, rate_limiter, model_registry, ab_test_manager, orchestrator, grpc_server, code,
  parts_of, Service, ServiceContainer, store_service,
}

all_names : List Name
all_names =
    store ∷ session_manager ∷ circuit_breaker ∷ alert_manager ∷ cloud_storage ∷ behavior_analyzer
    ∷ reasoning_chain ∷ rag_retriever ∷ anomaly_baseline ∷ reid_engine ∷ timeseries_engine
    ∷ auto_annotator ∷ report_generator ∷ rate_limiter ∷ model_registry ∷ ab_test_manager
    ∷ orchestrator ∷ grpc_server ∷ []

nth : ℕ → List Name → Name
nth n [] = store
nth zero (x ∷ xs) = x
nth (suc n) (x ∷ xs) = nth n xs

nth-code : (k : Name) → nth (code k) all_names ≡ k
unfolding nth code all_names
nth-code store = refl
nth-code session_manager = refl
nth-code circuit_breaker = refl
nth-code alert_manager = refl
nth-code cloud_storage = refl
nth-code behavior_analyzer = refl
nth-code reasoning_chain = refl
nth-code rag_retriever = refl
nth-code anomaly_baseline = refl
nth-code reid_engine = refl
nth-code timeseries_engine = refl
nth-code auto_annotator = refl
nth-code report_generator = refl
nth-code rate_limiter = refl
nth-code model_registry = refl
nth-code ab_test_manager = refl
nth-code orchestrator = refl
nth-code grpc_server = refl

pub code-injective : (k j : Name) → (code k == code j) ≡ true → k ≡ j
code-injective k j e =
    let same : code k ≡ code j = ground (arith, e) in
    sym (nth-code k) ∙ ap (λ n. nth n all_names) same ∙ nth-code j

-- How deep the calls of a builder go.
pub rank : Name → ℕ
rank store = 0
rank session_manager = 0
rank circuit_breaker = 0
rank alert_manager = 0
rank cloud_storage = 0
rank behavior_analyzer = 1
rank reasoning_chain = 0
rank rag_retriever = 1
rank anomaly_baseline = 1
rank reid_engine = 0
rank timeseries_engine = 1
rank auto_annotator = 1
rank report_generator = 1
rank rate_limiter = 0
rank model_registry = 0
rank ab_test_manager = 0
rank orchestrator = 2
rank grpc_server = 3

pub rank-bound : (k : Name) → rank k < 4
unfolding rank
rank-bound store = omega arith
rank-bound session_manager = omega arith
rank-bound circuit_breaker = omega arith
rank-bound alert_manager = omega arith
rank-bound cloud_storage = omega arith
rank-bound behavior_analyzer = omega arith
rank-bound reasoning_chain = omega arith
rank-bound rag_retriever = omega arith
rank-bound anomaly_baseline = omega arith
rank-bound reid_engine = omega arith
rank-bound timeseries_engine = omega arith
rank-bound auto_annotator = omega arith
rank-bound report_generator = omega arith
rank-bound rate_limiter = omega arith
rank-bound model_registry = omega arith
rank-bound ab_test_manager = omega arith
rank-bound orchestrator = omega arith
rank-bound grpc_server = omega arith

pub parts_of-rank : (k : Name) → All (λ p. rank p < rank k) (parts_of k)
unfolding rank parts_of
parts_of-rank store = ground arith
parts_of-rank session_manager = ground arith
parts_of-rank circuit_breaker = ground arith
parts_of-rank alert_manager = ground arith
parts_of-rank cloud_storage = ground arith
parts_of-rank behavior_analyzer = ground arith
parts_of-rank reasoning_chain = ground arith
parts_of-rank rag_retriever = ground arith
parts_of-rank anomaly_baseline = ground arith
parts_of-rank reid_engine = ground arith
parts_of-rank timeseries_engine = ground arith
parts_of-rank auto_annotator = ground arith
parts_of-rank report_generator = ground arith
parts_of-rank rate_limiter = ground arith
parts_of-rank model_registry = ground arith
parts_of-rank ab_test_manager = ground arith
parts_of-rank orchestrator = ground arith
parts_of-rank grpc_server = ground arith

-- What is cached stays, and names of this rank or more are as before.
pub record Grows (c c' : ServiceContainer) (bound : ℕ) : Type 0 where
  pub kept : (k : Name) (v : Option Service) → c.services k ≡ some v → c'.services k ≡ some v
  pub above : (k : Name) → bound ≤ rank k → c'.services k ≡ c.services k
  pub raises : c'.raises ≡ c.raises

pub Grows-same : (c : ServiceContainer) (bound : ℕ) → Grows c c bound
Grows-same c bound = record { kept = λ k v h. h; above = λ k h. refl; raises = refl }

pub Grows-trans :
    (c c' c'' : ServiceContainer) (bound bound' : ℕ)
    → bound ≤ bound'
    → Grows c c' bound
    → Grows c' c'' bound'
    → Grows c c'' bound'
Grows-trans c c' c'' bound bound' le g h = record {
  kept = λ k v e. h.kept k v (g.kept k v e);
  above = λ k l. h.above k l ∙ g.above k (omega (arith, le, l));
  raises = h.raises ∙ g.raises;
}

pub store_service-same :
    (name : Name) (v : Option Service) (c : ServiceContainer)
    → (store_service name v c).services name ≡ some v
unfolding store_service
store_service-same name v c =
    let same : (code name == code name) ≡ true = ground arith in rw same refl

pub store_service-other :
    (name k : Name) (v : Option Service) (c : ServiceContainer)
    → (code k == code name) ≡ false
    → (store_service name v c).services k ≡ c.services k
unfolding store_service
store_service-other name k v c e = rw e refl

pub some-injective : {A : Type 0} {x y : A} → some x ≡ some y → x ≡ y
some-injective e = ground arith

pub none-not-some : {A : Type 0} (x : A) → none ≡ some x → ⊥
none-not-some x e = ground arith

pub store_service-Grows :
    (name : Name) (v : Option Service) (c : ServiceContainer)
    → c.services name ≡ none
    → Grows c (store_service name v c) (suc (rank name))
unfolding store_service
store_service-Grows name v c free = record {
  kept = λ k w h. elim (Bool-cases (code k == code name)) [
    | inl e ↦
        absurd (none-not-some w (sym free ∙ sym (ap c.services (code-injective k name e)) ∙ h))
    | inr e ↦ rw e h
  ];
  above = λ k l. elim (Bool-cases (code k == code name)) [
    | inl e ↦ let same = ap rank (code-injective k name e) in absurd (omega (arith, same, l))
    | inr e ↦ rw e refl
  ];
  raises = refl;
}
