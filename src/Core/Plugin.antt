-- ===== src/Core/Plugin.antt =====
-- mac-central/src/core/plugin.py: `PluginManager`. A plugin is code that the program calls; it is given
-- by what its methods answer, and a method that raises is an answer of its own. The dictionaries of
-- the payloads and of the plugins' configurations are the type `D`.
pub mod Order
pub mod Process
pub mod Lifecycle
mod Tests
use neuro_pipeline.Prelude.{
  ℕ, String, Bool, true, false, List, [], ◌∷◌, map, Option, none, some, if◌then◌else◌,
}
use neuro_pipeline.Prelude.Int.{ℤ, pos, leb_ℤ, ltb_ℤ}
use neuro_pipeline.Prelude.Sort.{sorted}
use neuro_pipeline.Prelude.Dict.{Dict, get, contains, put, remove, values}

pub record PluginInfo : Type 0 where
  pub name : String
  pub version : String
  pub description : String
  pub author : String
  pub priority : ℤ
  pub enabled : Bool

-- What `process_detection` and `process_frame` answer: a payload, `None`, or an exception.
pub data Answer (D : Type 0) : Type 0 where
  kept : D → Answer D
  dropped : Answer D
  raised : Answer D

-- `initialize`, `shutdown` and `on_event` answer whether they return, and do not raise.
pub record PipelinePlugin (D : Type 0) : Type 0 where
  pub info : PluginInfo
  pub initialize : D → Bool
  pub shutdown : Bool
  pub process_detection : D → Answer D
  pub process_frame : D → Answer D
  pub on_event : String → D → Bool

pub record PluginManager (D : Type 0) : Type 0 where
  pub plugins : Dict (PipelinePlugin D)
  pub initialized : Bool

pub data RegisterResult (D : Type 0) : Type 0 where
  registered : PluginManager D → RegisterResult D
  value_error : RegisterResult D

-- How `initialize_all` ends: it returns at once, it raises what the named plugin raised, or it is
-- through.
pub data InitEnd : Type 0 where
  already : InitEnd
  aborted : String → InitEnd
  done : InitEnd

abbrev also_called : String → InitEnd × List String → InitEnd × List String
also_called name r = (r.0, name ∷ r.1)

module _ {D : Type 0} where
  -- The default of both methods.
  pub base_process : D → Answer D
  base_process d = kept d

  abbrev pub by_priority : PipelinePlugin D → PipelinePlugin D → Bool
  by_priority p q = leb_ℤ p.info.priority q.info.priority

  abbrev pub by_item : String × PipelinePlugin D → String × PipelinePlugin D → Bool
  by_item x y = by_priority x.1 y.1

  -- The order of `reverse=True`, which keeps equal elements in place too.
  abbrev pub by_item_reversed : String × PipelinePlugin D → String × PipelinePlugin D → Bool
  by_item_reversed x y = by_priority y.1 x.1

  pub register : PipelinePlugin D → PluginManager D → RegisterResult D
  register p m =
      if contains p.info.name m.plugins
      then value_error
      else registered (record m { plugins = put p.info.name p m.plugins })

  pub unregister : String → PluginManager D → PluginManager D × Bool
  unregister name m =
      if contains name m.plugins
      then (record m { plugins = remove name m.plugins }, true)
      else (m, false)

  pub get_plugin : String → PluginManager D → Option (PipelinePlugin D)
  get_plugin name m = get name m.plugins

  pub list_plugins : PluginManager D → List PluginInfo
  list_plugins m = map (λ p. p.info) (values m.plugins)

  -- `configs.get(name, {})`
  pub config_for : D → String → Dict D → D
  config_for empty_config name configs = elim (get name configs) [
    | none ↦ empty_config
    | some c ↦ c
  ]

  -- The exception of a plugin with a priority below 50 goes on to the caller.
  abbrev pub is_critical : PipelinePlugin D → Bool
  is_critical p = ltb_ℤ p.info.priority (pos 50)

  -- The body of the loop for one plugin, given what the rest of the loop does.
  pub init_step :
      D → Dict D → String → PipelinePlugin D → InitEnd × List String → InitEnd × List String
  init_step empty_config configs name p rest =
      if p.info.enabled
      then if p.initialize (config_for empty_config name configs)
        then also_called name rest
        else if is_critical p
        then (aborted name, name ∷ [])
        else also_called name rest
      else rest

  -- The loop of `initialize_all`, with the names of the plugins that were called.
  pub init_loop : D → Dict D → List (String × PipelinePlugin D) → InitEnd × List String
  unfolding init_step
  init_loop empty_config configs [] = (done, [])
  init_loop empty_config configs ((name, p) ∷ rest) =
      init_step empty_config configs name p (init_loop empty_config configs rest)

  -- `self._initialized = True` is reached only when the loop is through.
  after_init : PluginManager D → InitEnd × List String → PluginManager D × InitEnd × List String
  after_init m (done, called) = (record m { initialized = true }, done, called)
  after_init m (e, called) = (m, e, called)

  pub initialize_all : D → Dict D → PluginManager D → PluginManager D × InitEnd × List String
  unfolding init_loop after_init
  initialize_all empty_config configs m =
      if m.initialized
      then (m, already, [])
      else after_init m (init_loop empty_config configs (sorted by_item m.plugins))

  -- Every plugin is called, and one that raises (`false`) does not stop the loop; the names in the
  -- order of the calls.
  pub shutdown_loop : List (String × PipelinePlugin D) → List (String × Bool)
  shutdown_loop [] = []
  shutdown_loop ((name, p) ∷ rest) = (name, p.shutdown) ∷ shutdown_loop rest

  pub shutdown_all : PluginManager D → PluginManager D × List (String × Bool)
  unfolding shutdown_loop
  shutdown_all m =
      (record m { initialized = false }, shutdown_loop (sorted by_item_reversed m.plugins))

  -- The body of the loop for one plugin, from its `enabled` flag and its answer: what the rest of the
  -- loop does is a function of the payload that reaches it. The plugins that were called are listed.
  pub run_step :
      Bool
      → Answer D
      → PipelinePlugin D
      → D
      → (D → Option D × List (PipelinePlugin D))
      → Option D × List (PipelinePlugin D)
  run_step false answer p d rest = rest d
  run_step true raised p d rest = let r = rest d in (r.0, p ∷ r.1)
  run_step true dropped p d rest = (none, p ∷ [])
  run_step true (kept d') p d rest = let r = rest d' in (r.0, p ∷ r.1)

  -- The loop of `process_detection` and of `process_frame`.
  pub run_through :
      (PipelinePlugin D → D → Answer D)
      → List (PipelinePlugin D)
      → D
      → Option D × List (PipelinePlugin D)
  unfolding run_step
  run_through method [] d = (some d, [])
  run_through method (p ∷ ps) d = run_step p.info.enabled (method p d) p d (run_through method ps)

  pub process_detection : PluginManager D → D → Option D × List (PipelinePlugin D)
  unfolding run_through
  process_detection m =
      run_through (λ p. p.process_detection) (sorted by_priority (values m.plugins))

  pub process_frame : PluginManager D → D → Option D × List (PipelinePlugin D)
  unfolding run_through
  process_frame m = run_through (λ p. p.process_frame) (sorted by_priority (values m.plugins))

  -- The enabled plugins get the event in the order of registration, and one that raises (`false`)
  -- does not stop the loop.
  pub emit_loop : String → D → List (PipelinePlugin D) → List (PipelinePlugin D × Bool)
  emit_loop event_type event_data [] = []
  emit_loop event_type event_data (p ∷ ps) =
      let rest = emit_loop event_type event_data ps in
      if p.info.enabled then (p, p.on_event event_type event_data) ∷ rest else rest

  pub emit_event : String → D → PluginManager D → List (PipelinePlugin D × Bool)
  unfolding emit_loop
  emit_event event_type event_data m = emit_loop event_type event_data (values m.plugins)
