-- ===== src/Core/Container.antt =====
-- mac-central/src/core/container.py: `ServiceContainer.get` with its cache, and which services each
-- builder asks for. A builder may raise before it gets its parts, as where it makes a directory or a
-- severity from a text, and in the constructor. A service is an object with a number of its own and the parts that are passed to
-- its constructor; the other arguments are plain values of the configuration. The builders call `get`
-- again, so `get` has fuel, for the depth of these calls.
mod Names
pub mod Cache
pub mod Parts
pub mod Built
pub mod Wiring
mod Tests
use neuro_pipeline.Prelude.{
  ℕ, zero, suc, String, Bool, true, false, List, [], ◌∷◌, Option, none, some, str_eq, ◌==◌,
  if◌then◌else◌,
}
pub use neuro_pipeline.Core.Container.Names.{
  Name, store, session_manager, circuit_breaker, alert_manager, cloud_storage, behavior_analyzer,
  reasoning_chain, rag_retriever, anomaly_baseline, reid_engine, timeseries_engine, auto_annotator,
  report_generator, rate_limiter, model_registry, ab_test_manager, orchestrator, grpc_server,
}
unfoldable pub use neuro_pipeline.Core.Container.Names.{known, code, section_of, parts_of}

-- A service with the numbers of its parts, `none` for a part that is disabled.
pub record Service : Type 0 where
  pub ident : ℕ
  pub parts : List (Option ℕ)

-- `_services`, where a disabled service is there as `none`, and the number of objects made so far.
-- `raises` says of each builder, and of each point so far where a builder can raise, whether it does.
pub record ServiceContainer : Type 0 where
  pub enabled : String → Bool
  pub services : Name → Option (Option Service)
  pub made : ℕ
  pub raises : Name → ℕ → Bool
  pub points : ℕ

pub data Outcome : Type 0 where
  gives : Option Service → Outcome
  raised : Name → Outcome
  unknown exhausted : Outcome

unfoldable pub init : (String → Bool) → (Name → ℕ → Bool) → ServiceContainer
init enabled raises = record {
  enabled = enabled;
  services = λ k. none;
  made = 0;
  raises = raises;
  points = 0;
}

-- After a point where a builder can raise.
pub pass : ServiceContainer → ServiceContainer
pass c = record c { points = suc c.points }

pub store_service : Name → Option Service → ServiceContainer → ServiceContainer
unfolding code
store_service name v c = record c {
  services = λ k. if code k == code name then some v else c.services k;
}

pub ident_of : Option Service → Option ℕ
ident_of none = none
ident_of (some s) = some s.ident

-- What the calls of `get` in a builder give: the parts, or the exception of one of the calls.
pub data Gathered : Type 0 where
  gathered : List (Option ℕ) → Gathered
  stops : Outcome → Gathered

-- The parts after the first one, if that was there.
pub with_part :
    ServiceContainer × Outcome → ServiceContainer × Gathered → ServiceContainer × Gathered
unfolding ident_of
with_part (c, gives v) (c', gathered ids) = (c', gathered (ident_of v ∷ ids))
with_part (c, gives v) (c', stops o) = (c', stops o)
with_part (c, raised k) rest = (c, stops (raised k))
with_part (c, unknown) rest = (c, stops unknown)
with_part (c, exhausted) rest = (c, stops exhausted)

-- The calls of `get` in a builder.
pub get_parts :
    (Name → ServiceContainer → ServiceContainer × Outcome)
    → List Name
    → ServiceContainer
    → ServiceContainer × Gathered
unfolding with_part
get_parts get_part [] c = (c, gathered [])
get_parts get_part (p ∷ ps) c =
    let first = get_part p c in with_part first (get_parts get_part ps first.0)

-- The constructor call and, where it returns, the write to the cache.
pub construct : Name → ServiceContainer × Gathered → ServiceContainer × Outcome
unfolding store_service pass
construct name (c, stops o) = (c, o)
construct name (c, gathered ids) =
    if c.raises name c.points
    then (pass c, raised name)
    else let s : Service = record { ident = c.made; parts = ids } in
      (store_service name (some s) (record (pass c) { made = suc c.made }), gives (some s))

is_enabled : Option String → ServiceContainer → Bool
is_enabled none c = true
is_enabled (some section) c = c.enabled section

pub build :
    (Name → ServiceContainer → ServiceContainer × Outcome)
    → Name
    → ServiceContainer
    → ServiceContainer × Outcome
unfolding is_enabled get_parts construct store_service section_of parts_of pass
build get_part name c =
    if is_enabled (section_of name) c
    then if c.raises name c.points
      then (pass c, raised name)
      else construct name (get_parts get_part (parts_of name) (pass c))
    else (store_service name none c, gives none)

pub get_or_build :
    (Name → ServiceContainer → ServiceContainer × Outcome)
    → Name
    → ServiceContainer
    → Option (Option Service)
    → ServiceContainer × Outcome
unfolding build
get_or_build get_part name c (some v) = (c, gives v)
get_or_build get_part name c none = build get_part name c

unfoldable pub get : ℕ → Name → ServiceContainer → ServiceContainer × Outcome
unfolding get_or_build
get zero name c = (c, exhausted)
get (suc n) name c = get_or_build (get n) name c (c.services name)

get_known : Option Name → ServiceContainer → ServiceContainer × Outcome
unfolding get
get_known none c = (c, unknown)
get_known (some name) c = get 4 name c

-- `get`, which raises `KeyError` for an unknown name.
unfoldable pub get_by_name : String → ServiceContainer → ServiceContainer × Outcome
unfolding known get_known
get_by_name name c = get_known (known name) c
