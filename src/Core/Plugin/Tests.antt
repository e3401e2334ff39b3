-- ===== src/Core/Plugin/Tests.antt =====
-- Runs of plugin.py.
use neuro_pipeline.Prelude.{
  ℕ, ◌+◌, ◌*◌, ◌≡◌, refl, String, true, false, [], ◌∷◌, map, none, some, ◌==◌, if◌then◌else◌,
}
use neuro_pipeline.Prelude.Int.{pos}
use neuro_pipeline.Prelude.Dict.{get, contains, put, remove}
use neuro_pipeline.Prelude.Sort.{insert, sorted}
use neuro_pipeline.Core.Plugin.{
  kept, dropped, raised, PipelinePlugin, PluginManager, done, aborted, register, unregister,
  get_plugin, list_plugins, base_process, init_loop, init_step, config_for, initialize_all,
  shutdown_all, shutdown_loop, run_step, run_through, process_detection, process_frame, emit_loop,
  emit_event,
}

program : Unit {0}
unfolding get contains put remove insert sorted register unregister get_plugin list_plugins
    base_process init_loop init_step config_for initialize_all shutdown_all shutdown_loop run_step
    run_through process_detection process_frame emit_loop emit_event
program = tt

-- Payloads are numbers; a plugin adds to them.
abbrev adder : String → ℕ → ℕ → PipelinePlugin ℕ
adder name priority n = record {
  info = record {
    name = name;
    version = "1.0.0";
    description = "";
    author = "";
    priority = pos priority;
    enabled = true;
  };
  initialize = λ config. true;
  shutdown = true;
  process_detection = λ d. kept (d + n);
  process_frame = λ d. if d == 3 then dropped else kept (d * 2);
  on_event = λ t d. true;
}

-- It raises in every method.
abbrev broken : ℕ → PipelinePlugin ℕ
broken priority = record (adder "broken" priority 0) {
  initialize = λ config. false;
  shutdown = false;
  process_detection = λ d. raised;
  process_frame = λ d. raised;
  on_event = λ t d. false;
}

abbrev manager : ℕ → PluginManager ℕ
manager priority = record {
  plugins =
      ("late", adder "late" 90 2)
      ∷ ("broken", broken priority)
      ∷ ("early", adder "early" 10 1)
      ∷ [];
  initialized = false;
}

manager_run :
    ((process_detection (manager 60) 5).0 ≡ some 8)
    × ((process_frame (manager 60) 3).0 ≡ none)
    × (initialize_all 0 [] (manager 60)
        ≡ (record (manager 60) { initialized = true }, done, "early" ∷ "broken" ∷ "late" ∷ []))
    × (initialize_all 0 [] (manager 20) ≡ (manager 20, aborted "broken", "early" ∷ "broken" ∷ []))
    × ((shutdown_all (manager 60)).1 ≡ ("late", true) ∷ ("broken", false) ∷ ("early", true) ∷ [])
    × (map (λ e. e.1) (emit_event "e" 1 (manager 60)) ≡ true ∷ false ∷ true ∷ [])
unfolding program
manager_run = (refl, refl, refl, refl, refl, refl)
